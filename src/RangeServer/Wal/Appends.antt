-- ===== src/RangeServer/Wal/Appends.antt =====
-- The outcome of an append whose queries are answered.
use atomix.Base.{
  ℕ, ◌+◌, ◌%◌, u64_mod, ◌≡◌, ◌≢◌, ◌<◌, ◌⊎◌, inl, inr, ◌∙◌, ap, true, false, Option, some, Bytes,
  ite, ℕ_discrete, lookup, insert, lookup-insert, arith,
}
use atomix.RangeServer.Wal.{
  metadata_offset, Entry, Table, LogState, not_synced, synced, answered, ok, err_not_synced, Done,
  or_offset, append_batch, has_entry, end_append, append_entry,
}

end_append-found :
    (l : LogState) (t : Table) (offset write_id : ℕ)
    → has_entry t offset write_id ≡ true
    → end_append answered true l t offset write_id
      ≡ record { state = synced l; table = t; result = ok }
unfolding end_append
end_append-found l t offset write_id h = ground (arith, h)

end_append-missing :
    (l : LogState) (t : Table) (offset write_id : ℕ)
    → has_entry t offset write_id ≡ false
    → end_append answered true l t offset write_id
      ≡ record { state = not_synced; table = t; result = err_not_synced }
unfolding end_append
end_append-missing l t offset write_id h = ground (arith, h)

has_entry-insert :
    (t : Table) (first : Option ℕ) (next offset : ℕ) (e : Entry)
    → has_entry
        (record {
          first_offset = first;
          next_offset = next;
          entries = insert ℕ_discrete offset e t.entries;
        })
        offset
        e.write_id
      ≡ true
unfolding has_entry
has_entry-insert t first next offset e =
    ground (arith, lookup-insert ℕ_discrete offset offset e t.entries)

-- With the next offset of the log the batch applies and its entry is found.
append_entry-applied :
    (l : LogState) (t : Table) (content : Bytes) (write_id : ℕ)
    → t.next_offset < metadata_offset
    → l.next_offset ≡ t.next_offset
    → let first = some (or_offset l.first_offset t.next_offset) in
      append_entry (synced l) t content write_id answered true ≡ record {
        state = synced (record { first_offset = first; next_offset = t.next_offset + 1 });
        table = record {
          first_offset = first;
          next_offset = t.next_offset + 1;
          entries =
              insert ℕ_discrete t.next_offset
                (record { content = content; write_id = write_id })
                t.entries;
        };
        result = ok;
      }
unfolding append_entry append_batch
append_entry-applied l t content write_id full same =
    let following : (t.next_offset + 1) % u64_mod ≡ t.next_offset + 1 = omega (arith, full) in
    let first = some (or_offset l.first_offset t.next_offset) in
    let l' : LogState = record { first_offset = first; next_offset = t.next_offset + 1 } in
    let e : Entry = record { content = content; write_id = write_id } in
    let batch = append_batch t l' t.next_offset e in
    let after : Table = record {
      first_offset = first;
      next_offset = t.next_offset + 1;
      entries = insert ℕ_discrete t.next_offset e t.entries;
    } in
    let applied : batch ≡ after = ground arith in
    rw (same, following)
      (end_append-found l' batch t.next_offset write_id (
          ap (λ (k : Table). has_entry k t.next_offset write_id) applied
          ∙ has_entry-insert t first (t.next_offset + 1) t.next_offset e)
        ∙ ap (λ k. record { state = synced l'; table = k; result = ok }) applied)

append_entry-refused :
    (l : LogState) (t : Table) (content : Bytes) (write_id : ℕ)
    → l.next_offset ≢ t.next_offset
    → has_entry t l.next_offset write_id ≡ false
    → append_entry (synced l) t content write_id answered true
      ≡ record { state = not_synced; table = t; result = err_not_synced }
unfolding append_entry append_batch
append_entry-refused l t content write_id other fresh =
    let l' : LogState = record {
      first_offset = some (or_offset l.first_offset l.next_offset);
      next_offset = (l.next_offset + 1) % u64_mod;
    } in
    let e : Entry = record { content = content; write_id = write_id } in
    let kept : append_batch t l' l.next_offset e ≡ t = ground (arith, other) in
    end_append-missing l' (append_batch t l' l.next_offset e) l.next_offset write_id
      (ap (λ (k : Table). has_entry k l.next_offset write_id) kept ∙ fresh)
    ∙ ap (λ k. record { state = not_synced; table = k; result = err_not_synced }) kept

-- An append whose batch and lookup are answered, with an id that the entry at its offset does not have
-- yet, to a log whose next offset is below that of the metadata, succeeds exactly if the client knows
-- the next offset of the log. Then its entry stands at that offset, every other entry is as it was, the
-- next offset is the following one, and the first offset, in the table and for the client, is the one
-- that the client knew or, if it knew none, that of the new entry. Otherwise the log is as it was, and
-- the client has to sync.
pub append_entry-ok :
    (l : LogState) (t : Table) (content : Bytes) (write_id : ℕ)
    → t.next_offset < metadata_offset
    → has_entry t l.next_offset write_id ≡ false
    → let o = append_entry (synced l) t content write_id answered true in
      let first = some (or_offset l.first_offset t.next_offset) in
      ((l.next_offset ≡ t.next_offset)
        × (o.result ≡ ok)
        × (o.table.first_offset ≡ first)
        × (o.table.next_offset ≡ t.next_offset + 1)
        × ((k : ℕ)
            → lookup ℕ_discrete k o.table.entries
              ≡ ite
                  (ℕ_discrete k t.next_offset)
                  (some (record { content = content; write_id = write_id }))
                  (lookup ℕ_discrete k t.entries))
        × (o.state ≡ synced (record { first_offset = first; next_offset = t.next_offset + 1 })))
      ⊎ ((l.next_offset ≢ t.next_offset)
          × (o.result ≡ err_not_synced)
          × (o.table ≡ t)
          × (o.state ≡ not_synced))
append_entry-ok l t content write_id full fresh = elim (ℕ_discrete l.next_offset t.next_offset) [
  | yes same ↦
      let e : Entry = record { content = content; write_id = write_id } in
      let done = append_entry-applied l t content write_id full same in
      inl (
        same,
        ap (λ (k : Done). k.result) done,
        ap (λ (k : Done). k.table.first_offset) done,
        ap (λ (k : Done). k.table.next_offset) done,
        (λ k.
            ap (λ (d : Done). lookup ℕ_discrete k d.table.entries) done
            ∙ lookup-insert ℕ_discrete k t.next_offset e t.entries),
        ap (λ (k : Done). k.state) done,
      )
  | no other ↦
      let done = append_entry-refused l t content write_id other fresh in
      inr (
        other,
        ap (λ (k : Done). k.result) done,
        ap (λ (k : Done). k.table) done,
        ap (λ (k : Done). k.state) done,
      )
]
