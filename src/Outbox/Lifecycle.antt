-- ===== src/Outbox/Lifecycle.antt =====
-- The life of an outbox event: which changes of its document the repository's calls can make.
use task_manager_api.Prelude.{
  ℕ, ◌≤◌, ◌<◌, ◌≡◌, ap, inl, inr, Bool, true, Option, none, some, List, [], ◌∷◌, String, arith,
  ◌==◌, leb, Bool-cases, Option-cases,
}
use task_manager_api.Platform.Collection.{Collection}
use task_manager_api.Outbox.{
  OutboxEvent, NewEvent, or_default, is_claimable, is_processing, max_attempts, new_event, start,
  finish, give_up, postpone, create, mark_processing, mark_completed, mark_failed,
}

-- The calls that change the collection, as a schedule of any number of dispatchers makes them.
pub data Call : Type 0 where
  creates claims completes fails : ℕ → Call

module _ {Payload : Type 0} (db : Collection (OutboxEvent Payload)) where
  open db use {Store, find_by_id, find_one_and_update}

  -- One call on the store. A created event has a fresh id: the driver refuses a taken one.
  pub data Step (s : Store) : Call → Store → Type 0 where
    created :
        (data' : NewEvent Payload) (fresh now : ℕ)
        → find_by_id (or_default data'.id fresh) s ≡ none
        → Step s (creates (or_default data'.id fresh)) (create db data' fresh now s).2
    claimed : (id : ℕ) → Step s (claims id) (mark_processing db id s).1
    finished : (id now : ℕ) → Step s (completes id) (mark_completed db id now s).1
    broken :
        (id : ℕ) (error : String) (next : Option ℕ)
        → Step s (fails id) (mark_failed db id error next s).1

  pub data Trace : Store → List Call → Store → Type 0 where
    here : {s : Store} → Trace s [] s
    later :
        {s t u : Store} {c : Call} {cs : List Call} → Step s c t → Trace t cs u → Trace s (c ∷ cs) u

  -- What a call may do to the document with id j.
  pub data Transition (j : ℕ) (e : OutboxEvent Payload) (c : Call)
      : OutboxEvent Payload → Type 0 where
    same : Transition j e c e
    claim : c ≡ claims j → is_claimable e.status ≡ true → Transition j e c (start e)
    complete :
        (now : ℕ)
        → c ≡ completes j
        → is_processing e.status ≡ true
        → Transition j e c (finish now e)
    exhaust :
        (error : String)
        → c ≡ fails j
        → is_processing e.status ≡ true
        → max_attempts ≤ e.attempts
        → Transition j e c (give_up error e)
    retry :
        (error : String) (next : Option ℕ)
        → c ≡ fails j
        → is_processing e.status ≡ true
        → e.attempts < max_attempts
        → Transition j e c (postpone error next e)

  abbrev Moved : ℕ → OutboxEvent Payload → Call → Store → Type 0
  Moved j e c t = (e' : OutboxEvent Payload) × (find_by_id j t ≡ some e') × Transition j e c e'

  module _ (j : ℕ) (e : OutboxEvent Payload) (s : Store) (found : find_by_id j s ≡ some e) where
    create-Moved :
        (data' : NewEvent Payload) (fresh now : ℕ)
        → find_by_id (or_default data'.id fresh) s ≡ none
        → find_by_id j (create db data' fresh now s).2 ≡ some e
    unfolding create
    create-Moved data' fresh now free =
        let id = or_default data'.id fresh in
        ground (arith, db.find-insert id j (new_event data' now) s free)

    -- An update that matches moves the document on; any other leaves it.
    update-Moved :
        (c : Call) (id : ℕ) (p : OutboxEvent Payload → Bool)
        (u : OutboxEvent Payload → OutboxEvent Payload)
        → (id ≡ j → p e ≡ true → Transition j e c (u e))
        → Moved j e c (find_one_and_update id p u s).1
    update-Moved c id p u move = elim (Bool-cases (id == j)) [
      | inl hit ↦ elim (Bool-cases (p e)) [
        | inl m ↦ (u e, ground (arith, db.find-update id j p u s), move (ground arith) m)
        | inr m ↦ (e, ground (arith, db.find-update id j p u s), same)
      ]
      | inr miss ↦ (e, ground (arith, db.find-update id j p u s), same)
    ]

    mark_processing-Moved : (id : ℕ) → Moved j e (claims id) (mark_processing db id s).1
    unfolding mark_processing
    mark_processing-Moved id = update-Moved (claims id) id _ start (λ h m. claim (ap claims h) m)

    mark_completed-Moved : (id now : ℕ) → Moved j e (completes id) (mark_completed db id now s).1
    unfolding mark_completed
    mark_completed-Moved id now =
        update-Moved (completes id) id _ (finish now) (λ h m. complete now (ap completes h) m)

    mark_failed-Moved :
        (id : ℕ) (error : String) (at : Option ℕ)
        → Moved j e (fails id) (mark_failed db id error at s).1
    unfolding mark_failed
    mark_failed-Moved id error at = elim (Option-cases (find_by_id id s)) [
      | inl none_found ↦ rw (none_found, mark_failed) (e, found, same)
      | inr (event, hit) ↦ elim (Bool-cases (leb max_attempts event.attempts)) [
        | inl spent ↦
            rw (hit, spent, mark_failed)
              (update-Moved (fails id) id _ (give_up error)
                λ h m. exhaust error (ap fails h) m (ground arith))
        | inr left ↦
            rw (hit, left, mark_failed)
              (update-Moved (fails id) id _ (postpone error at)
                λ h m. retry error at (ap fails h) m (ground arith))
      ]
    ]

    -- Every call leaves an existing document alone or takes it along one edge of its life.
    pub Step-Transition : (c : Call) (t : Store) → Step s c t → Moved j e c t
    Step-Transition c t (created data' fresh now free) =
        (e, create-Moved data' fresh now free, same)
    Step-Transition c t (claimed id) = mark_processing-Moved id
    Step-Transition c t (finished id now) = mark_completed-Moved id now
    Step-Transition c t (broken id error at) = mark_failed-Moved id error at
