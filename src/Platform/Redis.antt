-- ===== src/Platform/Redis.antt =====
-- Redis through ioredis, as the services use it: values of type V under text keys, with a time to
-- live. `GET`, `SET EX`, `SET EX NX`, `DEL`, `INCR`, `EXPIRE`. The laws of the calls speak of calls
-- with no time between them; that seconds pass is a step of its own (`elapse`), after which the keys
-- whose time has run out are gone. The counters have no such step.
use task_manager_api.Prelude.{
  ℕ, suc, ◌-◌, ◌≡◌, Bool, true, ltb, not, Option, none, some, String, if◌then◌else◌, is_some,
  str_eq,
}

abbrev pub or_else {ℓ} : {A : Type ℓ} → Option A → A → A
or_else none d = d
or_else (some a) d = a

-- A key with this time to live is there after d seconds, and has so many left.
abbrev pub lasts : ℕ → Option ℕ → Bool
lasts d none = true
lasts d (some t) = ltb d t

abbrev pub left_after : ℕ → Option ℕ → Option ℕ
left_after d none = none
left_after d (some t) = some (t - d)

pub record Redis (V : Type 0) : Type 1 where
  pub Store : Type 0
  pub get : String → Store → Option V
  -- The seconds that a key has left, where it runs out.
  pub ttl : String → Store → Option ℕ
  pub elapse : (seconds : ℕ) → Store → Store
  pub set_ex : String → V → ℕ → Store → Store
  -- The flag is the reply `OK`.
  pub set_ex_nx : String → V → ℕ → Store → Bool × Store
  pub del : String → Store → Store
  pub get-set_ex :
      (k j : String) (v : V) (t : ℕ) (s : Store)
      → get j (set_ex k v t s) ≡ (if str_eq k j then some v else get j s)
  pub set_ex_nx_reply :
      (k : String) (v : V) (t : ℕ) (s : Store) → (set_ex_nx k v t s).0 ≡ not (is_some (get k s))
  pub get-set_ex_nx :
      (k j : String) (v : V) (t : ℕ) (s : Store)
      → get j (set_ex_nx k v t s).1 ≡ (if str_eq k j then some (or_else (get k s) v) else get j s)
  pub get-del :
      (k j : String) (s : Store) → get j (del k s) ≡ (if str_eq k j then none else get j s)
  pub ttl-set_ex :
      (k j : String) (v : V) (t : ℕ) (s : Store)
      → ttl j (set_ex k v t s) ≡ (if str_eq k j then some t else ttl j s)
  pub ttl-set_ex_nx :
      (k j : String) (v : V) (t : ℕ) (s : Store)
      → ttl j (set_ex_nx k v t s).1
        ≡ (if str_eq k j then (if is_some (get k s) then ttl j s else some t) else ttl j s)
  pub ttl-del :
      (k j : String) (s : Store) → ttl j (del k s) ≡ (if str_eq k j then none else ttl j s)
  pub get-elapse :
      (d : ℕ) (j : String) (s : Store)
      → get j (elapse d s) ≡ (if lasts d (ttl j s) then get j s else none)
  pub ttl-elapse :
      (d : ℕ) (j : String) (s : Store)
      → ttl j (elapse d s) ≡ (if lasts d (ttl j s) then left_after d (ttl j s) else none)

-- Counters: an absent key counts as 0, and `INCR` leaves the time to live of its key alone.
pub record Counters : Type 1 where
  pub Store : Type 0
  pub get : String → Store → Option ℕ
  pub ttl : String → Store → Option ℕ
  pub incr : String → Store → ℕ × Store
  pub expire : String → ℕ → Store → Store
  pub del : String → Store → Store
  pub incr_reply : (k : String) (s : Store) → (incr k s).0 ≡ suc (or_else (get k s) 0)
  pub get-incr :
      (k j : String) (s : Store)
      → get j (incr k s).1 ≡ (if str_eq k j then some (suc (or_else (get k s) 0)) else get j s)
  pub ttl-incr : (k j : String) (s : Store) → ttl j (incr k s).1 ≡ ttl j s
  pub get-expire : (k j : String) (t : ℕ) (s : Store) → get j (expire k t s) ≡ get j s
  pub ttl-expire :
      (k j : String) (t : ℕ) (s : Store)
      → ttl j (expire k t s)
        ≡ (if str_eq k j then (if is_some (get k s) then some t else ttl j s) else ttl j s)
  pub get-del :
      (k j : String) (s : Store) → get j (del k s) ≡ (if str_eq k j then none else get j s)
  pub ttl-del :
      (k j : String) (s : Store) → ttl j (del k s) ≡ (if str_eq k j then none else ttl j s)
