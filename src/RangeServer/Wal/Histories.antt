-- ===== src/RangeServer/Wal/Histories.antt =====
-- Histories of a log with any number of clients.
use atomix.Base.{
  ℕ, ◌+◌, ◌≡◌, ◌<◌, refl, sym, ◌∙◌, Bool, true, false, Option, none, some, Bytes, max, ltb,
  ℕ_discrete, arith, Bool-cases, inl, inr,
}
use mathlib.Core.Path.{subst}
use atomix.RangeServer.Wal.{
  metadata_offset, Table, LogState, State, not_synced, synced, Fate, answered, carried_out, lost,
  or_offset, send_trim, trim_from, append_entry, sync, drop_before, trim_batch, trim_before_offset,
}
use atomix.RangeServer.Wal.Extends.{
  IsLog, Extends, Extends-refl, append_entry-Extends, drop_before_keeps, of_drop_before,
}

trim_batch-Extends :
    (t : Table) (first offset : ℕ) → IsLog t → Extends offset t (trim_batch t first offset)
unfolding trim_batch
trim_batch-Extends t first offset (bound, i) =
    elim (ℕ_discrete (or_offset t.first_offset (first + 1)) first) [
      | no other ↦
          let same : trim_batch t first offset ≡ t = ground (arith, other) in
          subst (Extends offset t) (sym same) (Extends-refl offset t (bound, i))
      | yes matches ↦
          let after : Table = record t {
            first_offset = some offset;
            entries = drop_before offset t.entries;
          } in
          let same : trim_batch t first offset ≡ after = ground (arith, matches) in
          subst (Extends offset t) (sym same) (
            (bound, λ k e at. i k e (of_drop_before offset k t.entries e at)),
            omega arith,
            (λ k e l at.
                let below = i k e at in drop_before_keeps offset k t.entries l (omega arith) ∙ at),
            λ k e below at. of_drop_before offset k t.entries e at,
          )
    ]

sync-table : (s : State) (t : Table) (answers : Bool) → (sync s t answers).table ≡ t
unfolding sync
sync-table s t true = refl
sync-table s t false = refl

send_trim-Extends :
    (l : LogState) (t : Table) (first offset : ℕ) (fate : Fate) (again : Bool)
    → IsLog t
    → Extends offset t (send_trim l t first offset fate again).table
unfolding send_trim
send_trim-Extends l t first offset answered again i =
    subst (Extends offset t) (sym (sync-table (synced l) (trim_batch t first offset) again))
      (trim_batch-Extends t first offset i)
send_trim-Extends l t first offset carried_out again i = trim_batch-Extends t first offset i
send_trim-Extends l t first offset lost again i = Extends-refl offset t i

trim_from-Extends :
    (l : LogState) (t : Table) (known : Option ℕ) (offset : ℕ) (fate : Fate) (again : Bool)
    → IsLog t
    → Extends offset t (trim_from l t known offset fate again).table
unfolding trim_from
trim_from-Extends l t none offset fate again i = Extends-refl offset t i
trim_from-Extends l t (some first) offset fate again i = elim (Bool-cases (ltb offset first)) [
  | inl before ↦ rw before (Extends-refl offset t i)
  | inr from ↦ rw from (send_trim-Extends l t first offset fate again i)
]

trim-Extends :
    (s : State) (t : Table) (offset : ℕ) (fate : Fate) (again : Bool)
    → IsLog t
    → Extends offset t (trim_before_offset s t offset fate again).table
unfolding trim_before_offset
trim-Extends not_synced t offset fate again i = Extends-refl offset t i
trim-Extends (synced l) t offset fate again i =
    trim_from-Extends l t l.first_offset offset fate again i

-- A call of any client, in whatever state it is, with appends only while the next offset of the log
-- is below that of the metadata. The number is the offset of a trim.
pub data Step : ℕ → Table → Table → Type 0 where
  appends :
      (s : State) (t : Table) (content : Bytes) (write_id : ℕ) (fate : Fate) (checked : Bool)
      → t.next_offset < metadata_offset
      → Step 0 t (append_entry s t content write_id fate checked).table
  syncs : (s : State) (t : Table) (answers : Bool) → Step 0 t (sync s t answers).table
  trims :
      (s : State) (t : Table) (offset : ℕ) (fate : Fate) (again : Bool)
      → Step offset t (trim_before_offset s t offset fate again).table

-- Steps, with the greatest offset of their trims.
pub data Reach (t : Table) : ℕ → Table → Type 0 where
  here : Reach t 0 t
  next :
      {from offset : ℕ} {u v : Table}
      → Reach t from u
      → Step offset u v
      → Reach t (max from offset) v

Step-Extends : {offset : ℕ} {t u : Table} → Step offset t u → IsLog t → Extends offset t u
Step-Extends (appends s t content write_id fate checked full) i =
    append_entry-Extends s t content write_id fate checked full i
Step-Extends (syncs s t answers) i =
    subst (Extends 0 t) (sym (sync-table s t answers)) (Extends-refl 0 t i)
Step-Extends (trims s t offset fate again) i = trim-Extends s t offset fate again i

-- Whatever clients do with a log whose entries are below its next offset, in any order and with any
-- queries lost, as long as no append comes when the next offset is that of the metadata: the entries
-- stay below the next offset, which does not fall; every entry that no trim was above keeps its offset
-- and its content; and below the next offset at the start there is no entry but those of the start, so
-- that no offset that was passed, be its entry trimmed or not, is written again.
pub Reach-Extends : {t u : Table} {from : ℕ} → Reach t from u → IsLog t → Extends from t u
Reach-Extends {t = t} here i = Extends-refl 0 t i
Reach-Extends {t = t} (next {from = from} {offset = offset} r st) i =
    let (i', n, keeps, old) = Reach-Extends r i in
    let (i'', n', keeps', old') = Step-Extends st i' in
    (
      i'',
      omega (arith, n, n'),
      (λ k e l at. keeps' k e (ground (arith, l)) (keeps k e (ground (arith, l)) at)),
      λ k e below at. old k e below (old' k e (omega (arith, below, n)) at),
    )
