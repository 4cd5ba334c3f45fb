-- ===== src/RangeServer/MemTable/Entries.antt =====
-- Entries of a memtable, their order, and the ordered skip list that holds them.
use atomix.Base.{
  ℕ, Bool, true, false, Option, none, some, ◌≡◌, ◌⊎◌, Bytes, ltb, bytes_lt, if◌then◌else◌,
}

pub record MemTableEntry : Type 0 where
  pub key : Bytes
  pub val : Bytes
  pub epoch : ℕ
  pub deleted : Bool

-- `Ord::cmp` of entries, as a strict order: by key, and for one key the newest epoch first.
unfoldable pub entry_lt : MemTableEntry → MemTableEntry → Bool
entry_lt a b =
    if bytes_lt a.key b.key
    then true
    else if bytes_lt b.key a.key
    then false
    else ltb b.epoch a.epoch

-- `OrderedSkipList<MemTableEntry>`. `Has s e` says that the list has the entry. `lower_bound` returns
-- one of the first entries that are not below the given one; which of equal entries is not said.
pub record SkipList : Type 1 where
  pub Entries : Type 0
  pub Has : Entries → MemTableEntry → Type 0
  pub empty : Entries
  pub insert : MemTableEntry → Entries → Entries
  pub lower_bound : MemTableEntry → Entries → Option MemTableEntry
  pub not_has-empty : (e : MemTableEntry) → ¬ Has empty e
  pub has-insert : (e : MemTableEntry) (s : Entries) → Has (insert e s) e
  pub has-insert_other : (e e' : MemTableEntry) (s : Entries) → Has s e' → Has (insert e s) e'
  pub of_has-insert :
      (e e' : MemTableEntry) (s : Entries) → Has (insert e s) e' → (e' ≡ e) ⊎ Has s e'
  pub lower_bound-has :
      (x : MemTableEntry) (s : Entries) (e : MemTableEntry)
      → lower_bound x s ≡ some e
      → Has s e × (entry_lt e x ≡ false)
  pub lower_bound_least :
      (x : MemTableEntry) (s : Entries) (e e' : MemTableEntry)
      → lower_bound x s ≡ some e
      → Has s e'
      → entry_lt e' x ≡ false
      → entry_lt e' e ≡ false
  pub lower_bound-none :
      (x : MemTableEntry) (s : Entries) (e' : MemTableEntry)
      → lower_bound x s ≡ none
      → Has s e'
      → entry_lt e' x ≡ true
