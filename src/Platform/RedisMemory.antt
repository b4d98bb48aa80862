-- ===== src/Platform/RedisMemory.antt =====
-- Redis in memory, at which the examples run: an association list, newest entry first.
use task_manager_api.Prelude.{
  ℕ, suc, ap, ◌∙◌, ◌≡◌, refl, not, Bool, true, false, Option, none, some, List, [], ◌∷◌, String,
  arith, if◌then◌else◌, is_some, str_eq, eq_iff,
}
use task_manager_api.Platform.Redis.{Redis, Counters, or_else, lasts, left_after}

module _ {V : Type 0} where
  abbrev pub get : String → List (String × V) → Option V
  get k [] = none
  get k ((j, v) ∷ s) = if str_eq j k then some v else get k s

  abbrev pub set : String → V → List (String × V) → List (String × V)
  set k v s = (k, v) ∷ s

  abbrev pub set_nx : String → V → List (String × V) → Bool × List (String × V)
  set_nx k v s = if is_some (get k s) then (false, s) else (true, set k v s)

  abbrev pub del : String → List (String × V) → List (String × V)
  del k [] = []
  del k ((j, v) ∷ s) = let rest = del k s in if str_eq j k then rest else (j, v) ∷ rest

  pub get-set_nx :
      (k j : String) (v : V) (s : List (String × V))
      → get j (set_nx k v s).1 ≡ (if str_eq k j then some (or_else (get k s) v) else get j s)
  get-set_nx k j v s = ground (arith, eq_iff k j)

  pub get-del :
      (k j : String) (s : List (String × V))
      → get j (del k s) ≡ (if str_eq k j then none else get j s)
  get-del k j [] = ground arith
  get-del k j ((i, v) ∷ s) = ground (arith, get-del k j s, eq_iff k j, eq_iff i k, eq_iff i j)

  pub set_nx_reply :
      (k : String) (v : V) (s : List (String × V)) → (set_nx k v s).0 ≡ not (is_some (get k s))
  set_nx_reply k v s = ground arith

-- A value with its time left; the entries whose time has run out are taken away.
abbrev pub Timed : Type 0 → Type 0
Timed V = V × Option ℕ

module _ {V : Type 0} where
  abbrev pub value_of : Option (Timed V) → Option V
  value_of none = none
  value_of (some (v, t)) = some v

  abbrev pub time_of : Option (Timed V) → Option ℕ
  time_of none = none
  time_of (some (v, t)) = t

  -- What is left of an entry after d seconds.
  abbrev pub aged : ℕ → Option (Timed V) → Option (Timed V)
  aged d none = none
  aged d (some (v, t)) = if lasts d t then some (v, left_after d t) else none

  -- The older entries of a key are dropped.
  abbrev pub set_timed :
      String → Option (Timed V) → List (String × Timed V) → List (String × Timed V)
  set_timed k none s = s
  set_timed k (some c) s = (k, c) ∷ s

  abbrev pub elapse : ℕ → List (String × Timed V) → List (String × Timed V)
  elapse d [] = []
  elapse d ((k, c) ∷ s) = set_timed k (aged d (some c)) (del k (elapse d s))

  get-elapse :
      (d : ℕ) (j : String) (s : List (String × Timed V)) → get j (elapse d s) ≡ aged d (get j s)
  get-elapse d j [] = refl
  get-elapse d j ((k, (v, t)) ∷ s) =
      ground (arith, get-elapse d j s, get-del k j (elapse d s), eq_iff k j)

  pub value-elapse :
      (d : ℕ) (j : String) (s : List (String × Timed V))
      → value_of (get j (elapse d s))
        ≡ (if lasts d (time_of (get j s)) then value_of (get j s) else none)
  value-elapse d j s = ap value_of (get-elapse d j s) ∙ aged_value (get j s)
    where
      aged_value :
          (o : Option (Timed V))
          → value_of (aged d o) ≡ (if lasts d (time_of o) then value_of o else none)
      aged_value none = refl
      aged_value (some (v, t)) = ground arith

  pub time-elapse :
      (d : ℕ) (j : String) (s : List (String × Timed V))
      → time_of (get j (elapse d s))
        ≡ (if lasts d (time_of (get j s)) then left_after d (time_of (get j s)) else none)
  time-elapse d j s = ap time_of (get-elapse d j s) ∙ aged_time (get j s)
    where
      aged_time :
          (o : Option (Timed V))
          → time_of (aged d o) ≡ (if lasts d (time_of o) then left_after d (time_of o) else none)
      aged_time none = refl
      aged_time (some (v, t)) = ground arith

  pub value-set_nx :
      (k j : String) (v : V) (t : ℕ) (s : List (String × Timed V))
      → value_of (get j (set_nx k (v, some t) s).1)
        ≡ (if str_eq k j then some (or_else (value_of (get k s)) v) else value_of (get j s))
  value-set_nx k j v t s = ground (arith, eq_iff k j)

  pub time-set_nx :
      (k j : String) (v : V) (t : ℕ) (s : List (String × Timed V))
      → time_of (get j (set_nx k (v, some t) s).1) ≡ (
          if str_eq k j
          then (if is_some (value_of (get k s)) then time_of (get j s) else some t)
          else time_of (get j s))
  time-set_nx k j v t s = ground (arith, eq_iff k j)

  pub nx_reply :
      (k : String) (v : V) (t : ℕ) (s : List (String × Timed V))
      → (set_nx k (v, some t) s).0 ≡ not (is_some (value_of (get k s)))
  nx_reply k v t s = ground arith

  pub value-set :
      (k j : String) (v : V) (t : ℕ) (s : List (String × Timed V))
      → value_of (get j (set k (v, some t) s)) ≡ (if str_eq k j then some v else value_of (get j s))
  value-set k j v t s = ground arith

  pub time-set :
      (k j : String) (v : V) (t : ℕ) (s : List (String × Timed V))
      → time_of (get j (set k (v, some t) s)) ≡ (if str_eq k j then some t else time_of (get j s))
  time-set k j v t s = ground arith

  pub value-gone :
      (k j : String) (s : List (String × Timed V))
      → value_of (get j (del k s)) ≡ (if str_eq k j then none else value_of (get j s))
  value-gone k j s = ground (arith, get-del k j s)

  pub time-gone :
      (k j : String) (s : List (String × Timed V))
      → time_of (get j (del k s)) ≡ (if str_eq k j then none else time_of (get j s))
  time-gone k j s = ground (arith, get-del k j s)

abbrev pub memory : (V : Type 0) → Redis V
memory V = record {
  Store = List (String × Timed V);
  get = λ k s. value_of (get k s);
  ttl = λ k s. time_of (get k s);
  elapse = elapse;
  set_ex = λ k v t s. set k (v, some t) s;
  set_ex_nx = λ k v t s. set_nx k (v, some t) s;
  del = del;
  get-set_ex = value-set;
  set_ex_nx_reply = nx_reply;
  get-set_ex_nx = value-set_nx;
  get-del = value-gone;
  ttl-set_ex = time-set;
  ttl-set_ex_nx = time-set_nx;
  ttl-del = time-gone;
  get-elapse = value-elapse;
  ttl-elapse = time-elapse;
}

abbrev pub Cell : Type 0
Cell = ℕ × Option ℕ

abbrev pub value : Option Cell → Option ℕ
value none = none
value (some (n, t)) = some n

abbrev pub time_left : Option Cell → Option ℕ
time_left none = none
time_left (some (n, t)) = t

abbrev pub incr : String → List (String × Cell) → ℕ × List (String × Cell)
incr k s = let n = suc (or_else (value (get k s)) 0) in (n, set k (n, time_left (get k s)) s)

abbrev pub expire : String → ℕ → List (String × Cell) → List (String × Cell)
expire k t s = elim (value (get k s)) [ none ↦ s | some n ↦ set k (n, some t) s ]

module _ (k j : String) (s : List (String × Cell)) where
  pub value-incr :
      value (get j (incr k s).1)
      ≡ (if str_eq k j then some (suc (or_else (value (get k s)) 0)) else value (get j s))
  value-incr = ground (arith, eq_iff k j)

  pub time_left-incr : time_left (get j (incr k s).1) ≡ time_left (get j s)
  time_left-incr = ground (arith, eq_iff k j)

  pub value-expire : (t : ℕ) → value (get j (expire k t s)) ≡ value (get j s)
  value-expire t = ground (arith, eq_iff k j)

  pub time_left-expire :
      (t : ℕ)
      → time_left (get j (expire k t s)) ≡ (
          if str_eq k j
          then (if is_some (value (get k s)) then some t else time_left (get j s))
          else time_left (get j s))
  time_left-expire t = ground (arith, eq_iff k j)

  pub value-del : value (get j (del k s)) ≡ (if str_eq k j then none else value (get j s))
  value-del = ground (arith, get-del k j s)

  pub time_left-del :
      time_left (get j (del k s)) ≡ (if str_eq k j then none else time_left (get j s))
  time_left-del = ground (arith, get-del k j s)

abbrev pub counters : Counters
counters = record {
  Store = List (String × Cell);
  get = λ k s. value (get k s);
  ttl = λ k s. time_left (get k s);
  incr = incr;
  expire = expire;
  del = del;
  incr_reply = λ k s. refl;
  get-incr = value-incr;
  ttl-incr = time_left-incr;
  get-expire = λ k j t s. value-expire k j s t;
  ttl-expire = λ k j t s. time_left-expire k j s t;
  get-del = value-del;
  ttl-del = time_left-del;
}
