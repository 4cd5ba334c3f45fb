-- ===== src/RangeServer/Wal.antt =====
-- rangeserver/src/wal/cassandra.rs: a log of a range in the rows of a table, and the clients that
-- append to it. The database carries out a conditional batch at once and as a whole; whether a query
-- reaches it and whether its answer arrives is chosen by the environment. Offsets are i64 in the table
-- and in the clients' states, and u64 in the interface: both are their 64 bits, read as a number
-- without sign, so that the casts between them keep the number, and the table compares offsets by
-- `i64_lt`. The row with the metadata is not among the entries: appends at its offset are not
-- modelled. The bytes of an entry are taken as built.
pub mod Extends
pub mod Appends
pub mod Histories
mod Examples
use atomix.Base.{
  ℕ, suc, ◌+◌, ◌%◌, u64_mod, Bool, true, false, Option, none, some, List, [], ◌∷◌, Bytes, ltb, ◌==◌,
  if◌then◌else◌, ℕ_discrete, lookup, insert,
}

-- The sign bit of an i64.
abbrev pub i64_sign : ℕ
i64_sign = 0x8000_0000_0000_0000

-- `a < b` for the i64 with the bits of `a` and of `b`.
unfoldable pub i64_lt : ℕ → ℕ → Bool
i64_lt a b = ltb ((a + i64_sign) % u64_mod) ((b + i64_sign) % u64_mod)

-- The offset of the row with the metadata, i64::MAX.
abbrev pub metadata_offset : ℕ
metadata_offset = 0x7fff_ffff_ffff_ffff

pub record Entry : Type 0 where
  pub content : Bytes
  pub write_id : ℕ

-- The rows of one log: those of the entries by offset, and the row of the metadata.
pub record Table : Type 0 where
  pub first_offset : Option ℕ
  pub next_offset : ℕ
  pub entries : List (ℕ × Entry)

pub record LogState : Type 0 where
  pub first_offset : Option ℕ
  pub next_offset : ℕ

pub data State : Type 0 where
  not_synced : State
  synced : LogState → State

-- What becomes of a query: it is answered, or it fails although it was carried out, or before it.
pub data Fate : Type 0 where
  answered carried_out lost : Fate

pub data Result : Type 0 where
  ok err_not_synced err_database : Result

pub record Done : Type 0 where
  pub state : State
  pub table : Table
  pub result : Result

abbrev pub or_offset : Option ℕ → ℕ → ℕ
or_offset none offset = offset
or_offset (some first) offset = first

-- `UPDATE_METADATA_QUERY` with `APPEND_ENTRY_QUERY` in one batch.
unfoldable pub append_batch : Table → LogState → (offset : ℕ) → Entry → Table
append_batch t metadata offset e =
    if t.next_offset == offset
    then record {
      first_offset = metadata.first_offset;
      next_offset = metadata.next_offset;
      entries = insert ℕ_discrete offset e t.entries;
    }
    else t

-- `RETRIEVE_LOG_ENTRY`: whether the row is there.
unfoldable pub has_entry : Table → (offset write_id : ℕ) → Bool
has_entry t offset write_id = elim (lookup ℕ_discrete offset t.entries) [
  | none ↦ false
  | some e ↦ e.write_id == write_id
]

abbrev pub reached : Fate → Table → Table → Table
reached lost before after = before
reached answered before after = after
reached carried_out before after = after

-- The end of `append_entry`, with the fate of the batch; `checked` says whether the lookup is answered.
unfoldable pub end_append :
    Fate → (checked : Bool) → LogState → Table → (offset write_id : ℕ) → Done
end_append answered true l t offset write_id =
    if has_entry t offset write_id
    then record { state = synced l; table = t; result = ok }
    else record { state = not_synced; table = t; result = err_not_synced }
end_append answered false l t offset write_id = record {
  state = synced l;
  table = t;
  result = err_database;
}
end_append lost checked l t offset write_id = record {
  state = synced l;
  table = t;
  result = err_database;
}
end_append carried_out checked l t offset write_id = record {
  state = synced l;
  table = t;
  result = err_database;
}

unfoldable pub append_entry :
    State → Table → (content : Bytes) → (write_id : ℕ) → Fate → (checked : Bool) → Done
append_entry not_synced t content write_id fate checked = record {
  state = not_synced;
  table = t;
  result = err_not_synced;
}
append_entry (synced l) t content write_id fate checked =
    let offset = l.next_offset in
    let l' : LogState = record {
      first_offset = some (or_offset l.first_offset offset);
      next_offset = (offset + 1) % u64_mod;
    } in
    let e : Entry = record { content = content; write_id = write_id } in
    end_append fate checked l' (reached fate t (append_batch t l' offset e)) offset write_id

-- `None` for no rows is left to the environment as a failed query.
unfoldable pub sync : State → Table → (answers : Bool) → Done
sync s t true = record {
  state = synced (record { first_offset = t.first_offset; next_offset = t.next_offset });
  table = t;
  result = ok;
}
sync s t false = record { state = not_synced; table = t; result = err_database }

-- `offset < ?` of `TRIM_LOG_QUERY`, with the bound that is cast to an i64.
unfoldable pub drop_before : ℕ → List (ℕ × Entry) → List (ℕ × Entry)
drop_before offset [] = []
drop_before offset ((k, e) ∷ rest) =
    let left = drop_before offset rest in if i64_lt k offset then left else (k, e) ∷ left

-- `UPDATE_FIRST_OFFSET_QUERY` with `TRIM_LOG_QUERY` in one batch.
unfoldable pub trim_batch : Table → (first offset : ℕ) → Table
trim_batch t first offset =
    if or_offset t.first_offset (first + 1) == first
    then record t { first_offset = some offset; entries = drop_before offset t.entries }
    else t

unfoldable pub send_trim :
    LogState → Table → (first offset : ℕ) → Fate → (synced_again : Bool) → Done
send_trim l t first offset answered synced_again =
    sync (synced l) (trim_batch t first offset) synced_again
send_trim l t first offset carried_out synced_again = record {
  state = synced l;
  table = trim_batch t first offset;
  result = err_database;
}
send_trim l t first offset lost synced_again = record {
  state = synced l;
  table = t;
  result = err_database;
}

-- With the first offset that the client knows.
unfoldable pub trim_from :
    LogState → Table → Option ℕ → (offset : ℕ) → Fate → (synced_again : Bool) → Done
trim_from l t none offset fate synced_again = record { state = synced l; table = t; result = ok }
trim_from l t (some first) offset fate synced_again =
    if ltb offset first
    then record { state = synced l; table = t; result = ok }
    else send_trim l t first offset fate synced_again

unfoldable pub trim_before_offset :
    State → Table → (offset : ℕ) → Fate → (synced_again : Bool) → Done
trim_before_offset not_synced t offset fate synced_again = record {
  state = not_synced;
  table = t;
  result = err_not_synced;
}
trim_before_offset (synced l) t offset fate synced_again =
    trim_from l t l.first_offset offset fate synced_again
