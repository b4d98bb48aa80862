-- ===== src/Workspaces/Refinement.antt =====
-- The membership repository beside the collection without its caches: the calls of
-- src/workspace/infrastructure/persistence/repositories/membership.repository.ts, each answered from
-- the documents alone.
use task_manager_api.Prelude.{
  ℕ, ℕ_discrete, ◌≡◌, refl, ◌∙◌, ap, inl, inr, Bool, Option, Option-cases, none, some, List, [],
  ◌∷◌, is_some, Result, ok, err, conflict,
}
use task_manager_api.Platform.Collection.{Collection}
use task_manager_api.Platform.KeyedCache.{KeyedCache}
use task_manager_api.Platform.Tracked.{
  IsFresh, read_all, read_one-IsFresh, read_all-IsFresh, clear_cache-IsFresh,
}
use task_manager_api.Authorization.{WorkspaceRole}
use task_manager_api.Workspaces.{Membership}
use task_manager_api.Workspaces.Memberships.{
  Member, ListKey, of_user, of_workspace, is_of, new_membership, Memberships, stored_one,
  stored_many, clear_caches, create, find_by_workspace_and_user, find_by_user, find_by_workspace,
  exists,
}

pub ListKey-discrete : Discrete ListKey
ListKey-discrete = hlevel (ℕ_discrete)

pub Pair-discrete : Discrete (ℕ × ℕ)
Pair-discrete = hlevel (ℕ_discrete)

pub data Call : Type 0 where
  creates : (workspace_id user_id : ℕ) → WorkspaceRole → (fresh : ℕ) → Call
  asks_one asks_exists : (workspace_id user_id : ℕ) → Call
  asks_user asks_workspace : ℕ → Call

pub data Answer : Type 0 where
  created : Result Member → Answer
  one_member : Option Member → Answer
  members : List Member → Answer
  answers : Bool → Answer

module _ (db : Collection Membership) (cache : KeyedCache (ℕ × ℕ) Member)
    (list_cache : KeyedCache ListKey (List Member)) where
  abbrev one_of : db.Store → ℕ × ℕ → Option Member
  one_of = stored_one db cache list_cache

  abbrev many_of : db.Store → ListKey → List Member
  many_of = stored_many db cache list_cache

  -- The repository.
  unfoldable pub call :
      Call → Memberships db cache list_cache → Answer × Memberships db cache list_cache
  call (creates w u role fresh) s =
      let (a, s') = create db cache list_cache w u role fresh s in (created a, s')
  call (asks_one w u) s =
      let (a, s') = find_by_workspace_and_user db cache list_cache w u s in (one_member a, s')
  call (asks_exists w u) s = (answers (exists db cache list_cache w u s), s)
  call (asks_user u) s = let (a, s') = find_by_user db cache list_cache u s in (members a, s')
  call (asks_workspace w) s =
      let (a, s') = find_by_workspace db cache list_cache w s in (members a, s')

  -- The documents alone.
  unfoldable pub specified : Call → db.Store → Answer × db.Store
  unfolding new_membership
  specified (creates w u role fresh) docs = elim (db.find_one (is_of w u) docs) [
    | some duplicate ↦ (created (err conflict), docs)
    | none ↦ let m = new_membership w u role in (created (ok (fresh, m)), db.insert fresh m docs)
  ]
  specified (asks_one w u) docs = (one_member (one_of docs (w, u)), docs)
  specified (asks_exists w u) docs = (answers (is_some (db.find_one (is_of w u) docs)), docs)
  specified (asks_user u) docs = (members (many_of docs (of_user u)), docs)
  specified (asks_workspace w) docs = (members (many_of docs (of_workspace w)), docs)

  unfoldable pub calls :
      List Call → Memberships db cache list_cache → List Answer × Memberships db cache list_cache
  unfolding call
  calls [] s = ([], s)
  calls (c ∷ cs) s = let (a, s') = call c s in let (rest, s'') = calls cs s' in (a ∷ rest, s'')

  unfoldable pub all_specified : List Call → db.Store → List Answer × db.Store
  unfolding specified
  all_specified [] docs = ([], docs)
  all_specified (c ∷ cs) docs =
      let (a, docs') = specified c docs in
      let (rest, docs'') = all_specified cs docs' in (a ∷ rest, docs'')

  -- Every entry of the two caches is what the documents say, and its key is in the set.
  pub record IsCoherent (s : Memberships db cache list_cache) : Type 0 where
    pub fresh_one : IsFresh cache Pair-discrete (one_of s.docs) s.one
    pub fresh_many : IsFresh list_cache ListKey-discrete (λ k. some (many_of s.docs k)) s.many

  -- One call: the same answer, the same documents, and caches that are right again.
  pub record Refines (c : Call) (s : Memberships db cache list_cache) : Type 0 where
    pub same_answer : (call c s).0 ≡ (specified c s.docs).0
    pub same_docs : (call c s).1.docs ≡ (specified c s.docs).1
    pub coherent : IsCoherent (call c s).1

  clear_caches-IsCoherent :
      (s : Memberships db cache list_cache) (docs : db.Store)
      → IsCoherent s
      → IsCoherent (clear_caches db cache list_cache (record s { docs = docs }))
  unfolding clear_caches
  clear_caches-IsCoherent s docs h = record {
    fresh_one =
        clear_cache-IsFresh cache Pair-discrete (one_of s.docs) (one_of docs) s.one h.fresh_one;
    fresh_many =
        clear_cache-IsFresh list_cache ListKey-discrete (λ k. some (many_of s.docs k))
          (λ k. some (many_of docs k)) s.many h.fresh_many;
  }

  listed :
      (k : ListKey) (t : ℕ) (s : Memberships db cache list_cache)
      → IsCoherent s
      → ((read_all list_cache k t (many_of s.docs k) s.many).0 ≡ many_of s.docs k)
        × IsCoherent (record s { many = (read_all list_cache k t (many_of s.docs k) s.many).1 })
  listed k t s h =
      let (same, fresh) =
        read_all-IsFresh list_cache ListKey-discrete (λ j. some (many_of s.docs j)) k t
          (many_of s.docs k) s.many refl h.fresh_many in
      (same, record { fresh_one = h.fresh_one; fresh_many = fresh })

  call-Refines : (c : Call) (s : Memberships db cache list_cache) → IsCoherent s → Refines c s
  unfolding call specified create clear_caches find_by_workspace_and_user find_by_user
      find_by_workspace exists
  call-Refines (creates w u role fresh) s h = elim (Option-cases (db.find_one (is_of w u) s.docs)) [
    | inl free ↦ record {
      same_answer = rw (free, call, specified, create) refl;
      same_docs = rw (free, call, specified, create) refl;
      coherent = rw (free, call, specified, create) (clear_caches-IsCoherent s _ h);
    }
    | inr (d, taken) ↦ record {
      same_answer = rw (taken, call, specified, create) refl;
      same_docs = rw (taken, call, specified, create) refl;
      coherent = rw (taken, call, specified, create) h;
    }
  ]
  call-Refines (asks_one w u) s h =
      let (same, fresh) =
        read_one-IsFresh cache Pair-discrete (one_of s.docs) (w, u) _ s.one h.fresh_one in
      record {
        same_answer = ap one_member same;
        same_docs = refl;
        coherent = record { fresh_one = fresh; fresh_many = h.fresh_many };
      }
  call-Refines (asks_exists w u) s h = record { same_answer = refl; same_docs = refl; coherent = h }
  call-Refines (asks_user u) s h =
      let (same, fresh) = listed (of_user u) _ s h in
      record { same_answer = ap members same; same_docs = refl; coherent = fresh }
  call-Refines (asks_workspace w) s h =
      let (same, fresh) = listed (of_workspace w) _ s h in
      record { same_answer = ap members same; same_docs = refl; coherent = fresh }

  -- The membership repository implements the collection without caches: from a state whose caches
  -- hold only what the documents say, under keys that are all in this process's set of written
  -- keys, any list of calls gives the answers that the documents alone give, and leaves the same
  -- documents and caches that are right again.
  pub calls-all_specified :
      (cs : List Call) (s : Memberships db cache list_cache)
      → IsCoherent s
      → ((calls cs s).0 ≡ (all_specified cs s.docs).0)
        × ((calls cs s).1.docs ≡ (all_specified cs s.docs).1)
        × IsCoherent (calls cs s).1
  unfolding calls all_specified
  calls-all_specified [] s h = (refl, refl, h)
  calls-all_specified (c ∷ cs) s h =
      let r = call-Refines c s h in
      let (answers', docs', coherent') = calls-all_specified cs (call c s).1 r.coherent in
      (
        ap (λ a. a ∷ (calls cs (call c s).1).0) r.same_answer
            ∙ ap (λ rest. (specified c s.docs).0 ∷ rest)
                (answers' ∙ ap (λ d. (all_specified cs d).0) r.same_docs),
        docs' ∙ ap (λ d. (all_specified cs d).1) r.same_docs,
        coherent',
      )
