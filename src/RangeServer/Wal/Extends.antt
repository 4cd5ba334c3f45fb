-- ===== src/RangeServer/Wal/Extends.antt =====
-- Logs whose entries are below the next offset, and what an append and a dropped prefix keep.
use atomix.Base.{
  ℕ, ◌+◌, ◌%◌, u64_mod, ◌≡◌, ◌≢◌, ◌≤◌, ◌<◌, refl, sym, ◌∙◌, Bool, true, false, none, some,
  if◌then◌else◌, List, [], ◌∷◌, Bytes, ℕ_discrete, lookup, insert, lookup-insert, arith,
}
use mathlib.Core.Path.{subst}
use atomix.RangeServer.Wal.{
  i64_sign, i64_lt, metadata_offset, Entry, Table, LogState, State, not_synced, synced, Fate,
  answered, carried_out, lost, or_offset, append_batch, reached, end_append, append_entry,
  drop_before,
}

-- Every entry stands below the next offset, which is not above the offset of the metadata.
abbrev pub IsLog : Table → Type 0
IsLog t =
    (t.next_offset ≤ metadata_offset)
    × ((k : ℕ) (e : Entry) → lookup ℕ_discrete k t.entries ≡ some e → k < t.next_offset)

-- The second table is a log, its next offset is not smaller, it has the entries of the first from
-- `from` on, and below the next offset of the first it has no others than the first.
abbrev pub Extends : ℕ → Table → Table → Type 0
Extends from t t' =
    IsLog t'
    × (t.next_offset ≤ t'.next_offset)
    × ((k : ℕ) (e : Entry)
        → from ≤ k
        → lookup ℕ_discrete k t.entries ≡ some e
        → lookup ℕ_discrete k t'.entries ≡ some e)
    × ((k : ℕ) (e : Entry)
        → k < t.next_offset
        → lookup ℕ_discrete k t'.entries ≡ some e
        → lookup ℕ_discrete k t.entries ≡ some e)

pub Extends-refl : (from : ℕ) (t : Table) → IsLog t → Extends from t t
Extends-refl from t i = (i, omega arith, (λ k e l at. at), λ k e l at. at)

append_batch-Extends :
    (t : Table) (l : LogState) (offset : ℕ) (e : Entry)
    → l.next_offset ≡ (offset + 1) % u64_mod
    → t.next_offset < metadata_offset
    → IsLog t
    → Extends 0 t (append_batch t l offset e)
unfolding append_batch
append_batch-Extends t l offset e n full (bound, i) = elim (ℕ_discrete t.next_offset offset) [
  | no other ↦
      let same : append_batch t l offset e ≡ t = ground (arith, other) in
      subst (Extends 0 t) (sym same) (Extends-refl 0 t (bound, i))
  | yes here ↦
      let after : Table = record {
        first_offset = l.first_offset;
        next_offset = l.next_offset;
        entries = insert ℕ_discrete offset e t.entries;
      } in
      let same : append_batch t l offset e ≡ after = ground (arith, here) in
      subst (Extends 0 t) (sym same) (
        (
          omega (arith, here, n, full),
          λ k f at. elim (ℕ_discrete k offset) [
            | yes new ↦ omega (arith, n, new, here, full)
            | no old ↦
                let at' : lookup ℕ_discrete k t.entries ≡ some f =
                  sym (lookup-insert ℕ_discrete k offset e t.entries ∙ ground (arith, old)) ∙ at in
                omega (arith, i k f at', here, n, full)
          ],
        ),
        omega (arith, here, n, full),
        (λ k f l' at.
            let below = i k f at in
            let old : k ≢ offset = λ new. absurd (omega (arith, below, here, new)) in
            lookup-insert ℕ_discrete k offset e t.entries ∙ ground (arith, old, at)),
        λ k f below at.
            let old : k ≢ offset = λ new. absurd (omega (arith, below, here, new)) in
            sym (lookup-insert ℕ_discrete k offset e t.entries ∙ ground (arith, old)) ∙ at,
      )
]

end_append-table :
    (fate : Fate) (checked : Bool) (l : LogState) (t : Table) (offset write_id : ℕ)
    → (end_append fate checked l t offset write_id).table ≡ t
unfolding end_append
end_append-table answered true l t offset write_id = ground arith
end_append-table answered false l t offset write_id = refl
end_append-table lost checked l t offset write_id = refl
end_append-table carried_out checked l t offset write_id = refl

pub reached-Extends :
    (from : ℕ) (fate : Fate) (t t' : Table)
    → IsLog t
    → Extends from t t'
    → Extends from t (reached fate t t')
reached-Extends from lost t t' i x = Extends-refl from t i
reached-Extends from answered t t' i x = x
reached-Extends from carried_out t t' i x = x

pub append_entry-Extends :
    (s : State) (t : Table) (content : Bytes) (write_id : ℕ) (fate : Fate) (checked : Bool)
    → t.next_offset < metadata_offset
    → IsLog t
    → Extends 0 t (append_entry s t content write_id fate checked).table
unfolding append_entry
append_entry-Extends not_synced t content write_id fate checked full i = Extends-refl 0 t i
append_entry-Extends (synced l) t content write_id fate checked full i =
    let l' : LogState = record {
      first_offset = some (or_offset l.first_offset l.next_offset);
      next_offset = (l.next_offset + 1) % u64_mod;
    } in
    let e : Entry = record { content = content; write_id = write_id } in
    subst (Extends 0 t)
      (sym (
        end_append-table fate checked l' (reached fate t (append_batch t l' l.next_offset e))
          l.next_offset write_id))
      (reached-Extends 0 fate t (append_batch t l' l.next_offset e) i
        (append_batch-Extends t l' l.next_offset e refl full i))

-- A bound that is not greater, for offsets without the sign bit, is not greater for an i64.
not_before : (offset k : ℕ) → offset ≤ k → k < i64_sign → i64_lt k offset ≡ false
unfolding i64_lt
not_before offset k l b =
    let left : (k + i64_sign) % u64_mod ≡ k + i64_sign = omega arith in
    let right : (offset + i64_sign) % u64_mod ≡ offset + i64_sign = omega arith in
    rw (left, right) (ground arith)

lookup-drop_before :
    (offset k : ℕ) (m : List (ℕ × Entry))
    → lookup ℕ_discrete k (drop_before offset m)
      ≡ (if i64_lt k offset then none else lookup ℕ_discrete k m)
unfolding lookup drop_before
lookup-drop_before offset k [] = ground arith
lookup-drop_before offset k ((j, e) ∷ m) = ground (arith, lookup-drop_before offset k m)

pub drop_before_keeps :
    (offset k : ℕ) (m : List (ℕ × Entry))
    → offset ≤ k
    → k < i64_sign
    → lookup ℕ_discrete k (drop_before offset m) ≡ lookup ℕ_discrete k m
drop_before_keeps offset k m l b =
    ground (arith, lookup-drop_before offset k m, not_before offset k l b)

pub of_drop_before :
    (offset k : ℕ) (m : List (ℕ × Entry)) (e : Entry)
    → lookup ℕ_discrete k (drop_before offset m) ≡ some e
    → lookup ℕ_discrete k m ≡ some e
of_drop_before offset k m e h = ground (arith, lookup-drop_before offset k m, h)
