-- ===== src/RangeServer/WardenHandler/Updates.antt =====
-- The messages of an update are the difference between the old and the new assignment.
use atomix.Base.{
  ◌≡◌, refl, sym, ◌∙◌, ap, Bool, true, false, not, ◌&&◌, ◌||◌, List, [], ◌∷◌, ◌++◌, arith, ite,
  contains, add, discard, contains-add, contains-discard,
}
use atomix.RangeServer.WardenHandler.{
  Message, load_range, unload_range, Update, full_assignment, incremental_assignment, collect,
  unload_missing, load_new, load_each, unload_each, process_warden_update, not_started, started,
  start, is_assigned,
}

module _ {K : Type 0} (dec : Discrete K) where
  abbrev pub sends_load : K → List (Message K) → Bool
  sends_load r [] = false
  sends_load r (load_range s ∷ ms) = ite (dec r s) true (sends_load r ms)
  sends_load r (unload_range s ∷ ms) = sends_load r ms

  abbrev pub sends_unload : K → List (Message K) → Bool
  sends_unload r [] = false
  sends_unload r (load_range s ∷ ms) = sends_unload r ms
  sends_unload r (unload_range s ∷ ms) = ite (dec r s) true (sends_unload r ms)

  -- Whether a server that carries out the messages in their order has the range afterwards.
  abbrev pub follows : K → Bool → List (Message K) → Bool
  follows r had [] = had
  follows r had (load_range s ∷ ms) = follows r (ite (dec r s) true had) ms
  follows r had (unload_range s ∷ ms) = follows r (ite (dec r s) false had) ms

  follows-append :
      (r : K) (had : Bool) (ms ns : List (Message K))
      → follows r had (ms ++ ns) ≡ follows r (follows r had ms) ns
  follows-append r had [] ns = refl
  follows-append r had (load_range s ∷ ms) ns = follows-append r (ite (dec r s) true had) ms ns
  follows-append r had (unload_range s ∷ ms) ns = follows-append r (ite (dec r s) false had) ms ns

  -- Without an unload a range that was there stays, and without a load none comes.
  follows-loads :
      (r : K) (had : Bool) (ms : List (Message K))
      → sends_unload r ms ≡ false
      → follows r had ms ≡ (had || sends_load r ms)
  follows-loads r had [] e = ground arith
  follows-loads r had (load_range s ∷ ms) e =
      ground (arith, follows-loads r (ite (dec r s) true had) ms e)
  follows-loads r had (unload_range s ∷ ms) e =
      ground (arith, e, follows-loads r (ite (dec r s) false had) ms)

  follows-unloads :
      (r : K) (had : Bool) (ms : List (Message K))
      → sends_load r ms ≡ false
      → follows r had ms ≡ (had && not (sends_unload r ms))
  follows-unloads r had [] e = ground arith
  follows-unloads r had (load_range s ∷ ms) e =
      ground (arith, e, follows-unloads r (ite (dec r s) true had) ms)
  follows-unloads r had (unload_range s ∷ ms) e =
      ground (arith, follows-unloads r (ite (dec r s) false had) ms e)

  sends_load-append :
      (r : K) (ms ns : List (Message K))
      → sends_load r (ms ++ ns) ≡ (sends_load r ms || sends_load r ns)
  sends_load-append r [] ns = refl
  sends_load-append r (load_range s ∷ ms) ns = ground (arith, sends_load-append r ms ns)
  sends_load-append r (unload_range s ∷ ms) ns = sends_load-append r ms ns

  sends_unload-append :
      (r : K) (ms ns : List (Message K))
      → sends_unload r (ms ++ ns) ≡ (sends_unload r ms || sends_unload r ns)
  sends_unload-append r [] ns = refl
  sends_unload-append r (load_range s ∷ ms) ns = sends_unload-append r ms ns
  sends_unload-append r (unload_range s ∷ ms) ns = ground (arith, sends_unload-append r ms ns)

  contains-collect : (r : K) (rs : List K) → contains dec r (collect dec rs) ≡ contains dec r rs
  unfolding collect contains
  contains-collect r [] = refl
  contains-collect r (s ∷ rs) =
      ground (arith, contains-collect r rs, contains-add dec r s (collect dec rs))

  unload_missing-sent :
      (r : K) (rs new : List K)
      → (sends_unload r (unload_missing dec rs new)
          ≡ (contains dec r rs && not (contains dec r new)))
        × (sends_load r (unload_missing dec rs new) ≡ false)
  unfolding unload_missing contains
  unload_missing-sent r [] new = (refl, refl)
  unload_missing-sent r (s ∷ rs) new = ground (arith, unload_missing-sent r rs new)

  load_new-sent :
      (r : K) (rs old : List K)
      → (sends_load r (load_new dec rs old) ≡ (contains dec r rs && not (contains dec r old)))
        × (sends_unload r (load_new dec rs old) ≡ false)
  unfolding load_new contains
  load_new-sent r [] old = (refl, refl)
  load_new-sent r (s ∷ rs) old = ground (arith, load_new-sent r rs old)

  load_each-sent :
      (r : K) (rs old : List K)
      → (contains dec r (load_each dec rs old).0 ≡ (contains dec r rs || contains dec r old))
        × (sends_load r (load_each dec rs old).1 ≡ (contains dec r rs && not (contains dec r old)))
        × (sends_unload r (load_each dec rs old).1 ≡ false)
  unfolding load_each contains
  load_each-sent r [] old = (refl, refl, refl)
  load_each-sent r (s ∷ rs) old =
      ground (arith, load_each-sent r rs (add dec s old), contains-add dec r s old)

  unload_each-sent :
      (r : K) (rs old : List K)
      → (contains dec r (unload_each dec rs old).0
          ≡ (contains dec r old && not (contains dec r rs)))
        × (sends_unload r (unload_each dec rs old).1 ≡ (contains dec r rs && contains dec r old))
        × (sends_load r (unload_each dec rs old).1 ≡ false)
  unfolding unload_each contains
  unload_each-sent r [] old = (ground arith, refl, refl)
  unload_each-sent r (s ∷ rs) old =
      ground (arith, unload_each-sent r rs (discard dec s old), contains-discard dec r s old)

  -- What an update asks for: a range of a full assignment, or one that is to be loaded or was assigned
  -- before, and is not to be unloaded.
  abbrev pub wants : Update K → List K → K → Bool
  wants (full_assignment range) old r = contains dec r range
  wants (incremental_assignment load unload) old r =
      (contains dec r load || contains dec r old) && not (contains dec r unload)

  -- After an update exactly the ranges that it asks for are assigned, and a server that had the
  -- ranges assigned before and carries out its messages in their order has exactly those. A range is loaded only if it was not assigned, and unloaded only if it
  -- was assigned or has just been loaded.
  pub process_warden_update-wants :
      (update : Update K) (old : List K) (r : K)
      → let (after, sent) = process_warden_update dec update old in
        (is_assigned dec (started after) r ≡ wants update old r)
        × (follows r (is_assigned dec (started old) r) sent ≡ wants update old r)
        × (sends_load r sent ≡ true → is_assigned dec (started old) r ≡ false)
        × (sends_unload r sent ≡ true
            → (is_assigned dec (started old) r || sends_load r sent) ≡ true)
  unfolding process_warden_update is_assigned
  process_warden_update-wants (full_assignment range) old r =
      let c = contains-collect r range in
      let u = unload_missing-sent r old (collect dec range) in
      let l = load_new-sent r (collect dec range) old in
      let al =
        sends_load-append r (unload_missing dec old (collect dec range))
          (load_new dec (collect dec range) old) in
      let au =
        sends_unload-append r (unload_missing dec old (collect dec range))
          (load_new dec (collect dec range) old) in
      let ms = unload_missing dec old (collect dec range) in
      let ns = load_new dec (collect dec range) old in
      let had = contains dec r old in
      let f = follows-append r had ms ns in
      let fu = follows-unloads r had ms u.1 in
      let fl = follows-loads r (follows r had ms) ns l.1 in
      (
        c,
        f ∙ fl ∙ ground (arith, c, u, l, fu),
        ground (arith, c, u, l, al, au),
        ground (arith, c, u, l, al, au),
      )
  process_warden_update-wants (incremental_assignment load unload) old r =
      let l = load_each-sent r load old in
      let mid = (load_each dec load old).0 in
      let u = unload_each-sent r unload mid in
      let al = sends_load-append r (load_each dec load old).1 (unload_each dec unload mid).1 in
      let au = sends_unload-append r (load_each dec load old).1 (unload_each dec unload mid).1 in
      let ms = (load_each dec load old).1 in
      let ns = (unload_each dec unload mid).1 in
      let had = contains dec r old in
      let f = follows-append r had ms ns in
      let fl = follows-loads r had ms l.2 in
      let fu = follows-unloads r (follows r had ms) ns u.2 in
      (
        ground (arith, l, u),
        f ∙ fu ∙ ground (arith, l, u, fl),
        ground (arith, l, u, al, au),
        ground (arith, l, u, al, au),
      )

  abbrev pub assigned_after : List (Update K) → List K → List K
  assigned_after [] old = old
  assigned_after (u ∷ us) old = assigned_after us (process_warden_update dec u old).0

  -- Whether a server that carries out the messages of all the updates has the range.
  abbrev pub has_after : K → List (Update K) → List K → Bool → Bool
  has_after r [] old had = had
  has_after r (u ∷ us) old had =
      let (after, sent) = process_warden_update dec u old in
      has_after r us after (follows r had sent)

  has_after-assigned :
      (r : K) (us : List (Update K)) (old : List K) (had : Bool)
      → had ≡ is_assigned dec (started old) r
      → has_after r us old had ≡ is_assigned dec (started (assigned_after us old)) r
  has_after-assigned r [] old had e = e
  has_after-assigned r (u ∷ us) old had e =
      let w = process_warden_update-wants u old r in
      has_after-assigned r us (process_warden_update dec u old).0
        (follows r had (process_warden_update dec u old).1)
        (ap (λ b. follows r b (process_warden_update dec u old).1) e ∙ w.1 ∙ sym w.0)

  -- From the start of the handler on, whatever full and incremental updates come, a server that
  -- starts without ranges and carries out their messages in their order has exactly the ranges that are
  -- assigned.
  pub start-has_after :
      (us : List (Update K)) (r : K)
      → (start dec not_started true ≡ (started [], true))
        × (has_after r us [] false ≡ is_assigned dec (started (assigned_after us [])) r)
  unfolding start is_assigned contains
  start-has_after us r = (refl, has_after-assigned r us [] false refl)
