-- ===== src/Coordinator/Access/Writes.antt =====
-- A transaction reads its own writes.
use atomix.Base.{
  ℕ, ◌≡◌, ◌∙◌, refl, none, some, Option, [], Bytes, inl, inr, arith, bytes_discrete, lookup,
  lookup-insert, lookup-remove, contains-add, Option-cases,
}
use atomix.Routing.{FullRangeId}
use atomix.Coordinator.Store.{Status}
use atomix.Coordinator.Transaction.{
  State, running, preparing, aborted, committed, ParticipantRange, Keyspace, keyspace_discrete,
  range_discrete, Transaction, Result, ok, err, panics, KeyspaceInfo, fails, absent, found,
  resolve_keyspace, range_of_key, resolve_full_record_key, check_still_running,
  get_participant_range, set_range, returns,
}
use atomix.Coordinator.Access.{write_range, put_in, del_in, put, del, GetResult, get_resolved, get}

reads_put :
    (row : Option Status) (key val : Bytes) (answer : Option GetResult) (p : ParticipantRange)
    (id : FullRangeId) (t : Transaction)
    → get_participant_range t id ≡ put_in key val p
    → ((get_resolved t row key answer (ok id)).result ≡ ok (some val))
      × ((get_resolved t row key answer (ok id)).sent ≡ [])
unfolding get_resolved put_in returns
reads_put row key val answer p id t e =
    ground (arith, e, lookup-insert bytes_discrete key key val p.writeset)

reads_del :
    (row : Option Status) (key : Bytes) (answer : Option GetResult) (p : ParticipantRange)
    (id : FullRangeId) (t : Transaction)
    → get_participant_range t id ≡ del_in key p
    → ((get_resolved t row key answer (ok id)).result ≡ ok none)
      × ((get_resolved t row key answer (ok id)).sent ≡ [])
unfolding get_resolved del_in returns
reads_del row key answer p id t e = ground (
  arith,
  e,
  lookup-remove bytes_discrete key key p.writeset,
  contains-add bytes_discrete key key p.deleteset,
)

module _ (oracle : ℕ → Bytes → Option FullRangeId) (keyspace : Keyspace) where
  abbrev Resolved : Transaction → Bytes → FullRangeId → Type 0
  Resolved t key id =
      (k : ℕ) × ((lookup keyspace_discrete keyspace t.resolved_keyspaces ≡ some k)
        × (oracle k key ≡ some id))

  resolve_new :
      (t : Transaction) (key : Bytes) (info : KeyspaceInfo) (id : FullRangeId)
      → lookup keyspace_discrete keyspace t.resolved_keyspaces ≡ none
      → (resolve_full_record_key oracle t keyspace key info).1 ≡ ok id
      → Resolved (resolve_full_record_key oracle t keyspace key info).0 key id
  unfolding resolve_full_record_key resolve_keyspace range_of_key
  resolve_new t key fails id free h = ground (arith, free, h)
  resolve_new t key absent id free h = ground (arith, free, h)
  resolve_new t key (found k) id free h = (
    k,
    (
      ground
          (arith, free, lookup-insert keyspace_discrete keyspace keyspace k t.resolved_keyspaces),
      ground (arith, free, h),
    ),
  )

  resolve_full_record_key-Resolved :
      (t : Transaction) (key : Bytes) (info : KeyspaceInfo) (id : FullRangeId)
      → (resolve_full_record_key oracle t keyspace key info).1 ≡ ok id
      → Resolved (resolve_full_record_key oracle t keyspace key info).0 key id
  unfolding resolve_full_record_key resolve_keyspace range_of_key
  resolve_full_record_key-Resolved t key info id h =
      elim (Option-cases (lookup keyspace_discrete keyspace t.resolved_keyspaces)) [
        | inl free ↦ resolve_new t key info id free h
        | inr (k, known) ↦ (k, (ground (arith, known), ground (arith, known, h)))
      ]

  Resolved-resolve :
      (t : Transaction) (key : Bytes) (info : KeyspaceInfo) (id : FullRangeId)
      → Resolved t key id
      → resolve_full_record_key oracle t keyspace key info ≡ (t, ok id)
  unfolding resolve_full_record_key resolve_keyspace range_of_key
  Resolved-resolve t key info id r = ground (arith, r.1.0, r.1.1)

  -- A write that succeeded has changed the entry of the key's range.
  abbrev Written : (ParticipantRange → ParticipantRange) → Bytes → Transaction → Type 0
  Written change key t =
      (id : FullRangeId) × (Resolved t key id
        × ((p : ParticipantRange) × (get_participant_range t id ≡ change p)))

  write_range-Written :
      (change : ParticipantRange → ParticipantRange) (t : Transaction) (key : Bytes)
      (info : KeyspaceInfo) (r : Result FullRangeId)
      → (resolve_full_record_key oracle t keyspace key info).1 ≡ r
      → (write_range change (resolve_full_record_key oracle t keyspace key info).0 r).1 ≡ ok tt
      → Written change key
          (write_range change (resolve_full_record_key oracle t keyspace key info).0 r).0
  unfolding write_range set_range get_participant_range
  write_range-Written change t key info (ok id) e h =
      let t' = (resolve_full_record_key oracle t keyspace key info).0 in
      (
        id,
        (
          resolve_full_record_key-Resolved t key info id e,
          (
            get_participant_range t' id,
            ground (
              arith,
              lookup-insert range_discrete id id (change (get_participant_range t' id))
                  t'.participant_ranges,
            ),
          ),
        ),
      )
  write_range-Written change t key info (err x) e h = ground (arith, h)
  write_range-Written change t key info panics e h = ground (arith, h)

  get-Written :
      (change : ParticipantRange → ParticipantRange) (t : Transaction) (row : Option Status)
      (key : Bytes) (info : KeyspaceInfo) (answer : Option GetResult) (v : Option Bytes)
      → ((p : ParticipantRange) (id : FullRangeId) (t' : Transaction)
          → get_participant_range t' id ≡ change p
          → ((get_resolved t' row key answer (ok id)).result ≡ ok v)
            × ((get_resolved t' row key answer (ok id)).sent ≡ []))
      → t.state ≡ running
      → Written change key t
      → ((get oracle t row keyspace key info answer).result ≡ ok v)
        × ((get oracle t row keyspace key info answer).sent ≡ [])
  unfolding get check_still_running
  get-Written change t row key info answer v reads r w =
      ground (arith, r, Resolved-resolve t key info w.0 w.1.0, reads w.1.1.0 w.0 t w.1.1.1)

  -- `put` and `del` with the change that they make.
  abbrev write :
      (ParticipantRange → ParticipantRange)
      → Transaction
      → Bytes
      → KeyspaceInfo
      → Transaction × Result (Unit {0})
  write change t key info = elim (check_still_running t.state) [
    | some e ↦ (t, err e)
    | none ↦
        let (t', id) = resolve_full_record_key oracle t keyspace key info in
        write_range change t' id
  ]

  write_range-state :
      (change : ParticipantRange → ParticipantRange) (t : Transaction) (r : Result FullRangeId)
      → (write_range change t r).0.state ≡ t.state
  unfolding write_range set_range
  write_range-state change t (ok id) = refl
  write_range-state change t (err e) = refl
  write_range-state change t panics = refl

  resolve-state :
      (t : Transaction) (key : Bytes) (info : KeyspaceInfo)
      → (resolve_full_record_key oracle t keyspace key info).0.state ≡ t.state
  unfolding resolve_full_record_key resolve_keyspace
  resolve-state t key info = ground arith

  write_from :
      (s : State) (change : ParticipantRange → ParticipantRange) (t : Transaction) (key : Bytes)
      (info : KeyspaceInfo)
      → (write change (record t { state = s }) key info).1 ≡ ok tt
      → ((write change (record t { state = s }) key info).0.state ≡ running)
        × Written change key (write change (record t { state = s }) key info).0
  unfolding check_still_running
  write_from running change t key info h = (
    write_range-state change _ _ ∙ resolve-state (record t { state = running }) key info,
    write_range-Written change (record t { state = running }) key info _ refl h,
  )
  write_from preparing change t key info h = ground (arith, h)
  write_from aborted change t key info h = ground (arith, h)
  write_from committed change t key info h = ground (arith, h)

  -- A read after a `put` that succeeded returns the value that was put, without a request to any range,
  -- whatever the services answer by then, as long as the key stays in its range.
  pub get-put :
      (t : Transaction) (row : Option Status) (key val : Bytes) (info info' : KeyspaceInfo)
      (answer : Option GetResult)
      → (put oracle t keyspace key val info).1 ≡ ok tt
      → let t' = (put oracle t keyspace key val info).0 in
        ((get oracle t' row keyspace key info' answer).result ≡ ok (some val))
        × ((get oracle t' row keyspace key info' answer).sent ≡ [])
  unfolding put
  get-put t row key val info info' answer h =
      let w = write_from t.state (put_in key val) t key info h in
      get-Written (put_in key val) (write (put_in key val) t key info).0 row key info' answer
        (some val) (λ p id t' e. reads_put row key val answer p id t' e) w.0 w.1

  -- A read after a `del` that succeeded finds no value, without a request to any range, also if the key
  -- was put before.
  pub get-del :
      (t : Transaction) (row : Option Status) (key : Bytes) (info info' : KeyspaceInfo)
      (answer : Option GetResult)
      → (del oracle t keyspace key info).1 ≡ ok tt
      → let t' = (del oracle t keyspace key info).0 in
        ((get oracle t' row keyspace key info' answer).result ≡ ok none)
        × ((get oracle t' row keyspace key info' answer).sent ≡ [])
  unfolding del
  get-del t row key info info' answer h =
      let w = write_from t.state (del_in key) t key info h in
      get-Written (del_in key) (write (del_in key) t key info).0 row key info' answer none
        (λ p id t' e. reads_del row key answer p id t' e) w.0 w.1
