-- ===== src/RangeServer/RangeManager/Loading.antt =====
-- Histories of the loading of a range.
use atomix.Base.{ℕ, suc, ◌-◌, ◌≡◌, ◌≢◌, ◌≤◌, ◌<◌, refl, sym, ◌∙◌, Bool, true, false, arith}
use atomix.RangeServer.RangeManager.{
  range_is_not_loaded, LoadedState, State, not_loaded, loading, loaded, unloaded, Claimed,
  already_loaded, loads, fails, claim_load, LoadResult, ok, err, finish_load, unload, is_unloaded,
}

-- A range, the runs of `load_inner` that are under way, and those that were ever started.
pub record Loads : Type 0 where
  pub state : State
  pub running : ℕ
  pub started : ℕ

abbrev pub start : Loads
start = record { state = not_loaded; running = 0; started = 0 }

-- The critical sections that change the state. Calls of transactions and the renewal of the lease
-- change what is loaded.
pub data Step : Loads → Loads → Type 0 where
  claims :
      (r : Loads) (channel : ℕ)
      → (claim_load r.state channel).1 ≡ loads
      → Step r (record {
        state = (claim_load r.state channel).0;
        running = suc r.running;
        started = suc r.started;
      })
  asks :
      (r : Loads) (channel : ℕ)
      → (claim_load r.state channel).1 ≢ loads
      → Step r (record r { state = (claim_load r.state channel).0 })
  finishes :
      (r : Loads) (result : LoadResult) (heard : Bool)
      → 0 < r.running
      → Step r (record r { state = (finish_load r.state result heard).0; running = r.running - 1 })
  unloads : (r : Loads) → Step r (record r { state = unload r.state })
  works :
      (r : Loads) (l l' : LoadedState)
      → r.state ≡ loaded l
      → Step r (record r { state = loaded l' })

pub data Reach : Loads → Type 0 where
  here : Reach start
  next : {r r' : Loads} → Reach r → Step r r' → Reach r'

abbrev pub IsOnce : Loads → Type 0
IsOnce r = (r.started ≤ 1) × (r.running ≤ r.started) × (r.state ≡ not_loaded → r.started ≡ 0)

claim_load-loads :
    (s : State) (channel : ℕ)
    → (claim_load s channel).1 ≡ loads
    → (s ≡ not_loaded) × ((claim_load s channel).0 ≢ not_loaded)
unfolding claim_load
claim_load-loads not_loaded channel e = (refl, λ k. absurd (ground (arith, k)))
claim_load-loads (loading c) channel e = absurd (ground (arith, e))
claim_load-loads (loaded l) channel e = absurd (ground (arith, e))
claim_load-loads unloaded channel e = absurd (ground (arith, e))

claim_load-same :
    (s : State) (channel : ℕ) → (claim_load s channel).1 ≢ loads → (claim_load s channel).0 ≡ s
unfolding claim_load
claim_load-same not_loaded channel ne = absurd (ne refl)
claim_load-same (loading c) channel ne = refl
claim_load-same (loaded l) channel ne = refl
claim_load-same unloaded channel ne = refl

finish_load-ne :
    (s : State) (result : LoadResult) (heard : Bool) → (finish_load s result heard).0 ≢ not_loaded
unfolding finish_load
finish_load-ne s (ok l) heard e = ground (arith, e)
finish_load-ne s (err x) true e = ground (arith, e)
finish_load-ne s (err x) false e = ground (arith, e)

Step-IsOnce : {r r' : Loads} → Step r r' → IsOnce r → IsOnce r'
unfolding unload
Step-IsOnce (claims r channel e) o =
    let c = claim_load-loads r.state channel e in
    (omega (arith, o.2 c.0), omega (arith, o.1), λ k. absurd (c.1 k))
Step-IsOnce (asks r channel ne) o =
    (o.0, o.1, λ k. o.2 (sym (claim_load-same r.state channel ne) ∙ k))
Step-IsOnce (finishes r result heard h) o =
    (o.0, omega (arith, o.1), λ k. absurd (finish_load-ne r.state result heard k))
Step-IsOnce (unloads r) o = (o.0, o.1, λ k. absurd (ground (arith, k)))
Step-IsOnce (works r l l' e) o = (o.0, o.1, λ k. absurd (ground (arith, k)))

-- In the life of a range manager at most one run of `load_inner` is started, whatever the order of the
-- calls of `load` and `unload`, and none before the state leaves `NotLoaded`.
pub Reach-IsOnce : {r : Loads} → Reach r → IsOnce r
Reach-IsOnce here = (omega arith, omega arith, λ e. refl)
Reach-IsOnce (next r st) = Step-IsOnce st (Reach-IsOnce r)

-- What the range is after a load and an `unload` during that load.
abbrev pub after_load : LoadResult → State × Claimed
after_load (ok l) = (loaded l, already_loaded)
after_load (err e) = (unloaded, fails range_is_not_loaded)

-- An `unload` while a load is under way has no effect on its outcome: when the load succeeds the range
-- is loaded, although it was unloaded before, and a later `load` returns at once; when it fails the
-- range is unloaded for good, and a later `load` returns an error.
pub finish_load-unload :
    (s : State) (result : LoadResult) (heard : Bool) (channel : ℕ)
    → let s' = (finish_load (unload s) result heard).0 in
      (is_unloaded (unload s) ≡ true)
      × (claim_load s' channel ≡ after_load result)
      × (s' ≡ (finish_load s result heard).0)
unfolding finish_load unload is_unloaded claim_load
finish_load-unload s (ok l) heard channel = (refl, refl, refl)
finish_load-unload s (err e) true channel = (refl, refl, refl)
finish_load-unload s (err e) false channel = (refl, refl, refl)
