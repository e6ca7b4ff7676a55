-- ===== src/Tests/Server.antt =====
-- A Redis server that never fails and on which nothing runs out: a concrete `Redis`. And one that
-- always fails.
use payment_system.Base.{
  ℕ, suc, ◌≡◌, refl, inl, inr, true, String, Option, none, some, List, [], ◌∷◌, str_eq, eq_iff,
  Bool-cases, if◌then◌else◌,
}
use payment_system.Core.Exceptions.{unexpected}
use payment_system.Core.Exec.{Exec, ok, err}
use payment_system.Cache.Steady.{IsSteady}
use payment_system.Cache.Redis.{Redis, Fades, Puts, Cleared}

pub record Local : Type 0 where
  pub entry : String → Option String
  pub ttl : String → Option ℕ
  pub counter : String → ℕ

abbrev pub write {ℓ} : {A : Type ℓ} → String → A → (String → A) → String → A
write k a f j = if str_eq j k then a else f j

pub write_self {ℓ} : {A : Type ℓ} (k : String) (a : A) (f : String → A) → write k a f k ≡ a
write_self k a f = rw ((eq_iff k k).1 refl) refl

pub write-Puts : (k v : String) (f : String → Option String) → Puts k v f (write k (some v) f)
write-Puts k v f j = elim (Bool-cases (str_eq j k)) [
  | inl same ↦ rw same (inr (inr ((eq_iff j k).0 same, refl)))
  | inr other ↦ rw other (inl refl)
]

pub write-Fades : (k : String) (f : String → Option String) → Fades f (write k none f)
write-Fades k f j = elim (Bool-cases (str_eq j k)) [
  | inl same ↦ rw same (inr refl)
  | inr other ↦ rw other (inl refl)
]

abbrev pub erase_all : List String → (String → Option String) → String → Option String
erase_all [] f = f
erase_all (k ∷ ks) f = write k none (erase_all ks f)

pub erase_all-Fades : (ks : List String) (f : String → Option String) → Fades f (erase_all ks f)
erase_all-Fades [] f j = inl refl
erase_all-Fades (k ∷ ks) f j = elim (Bool-cases (str_eq j k)) [
  | inl same ↦ rw same (inr refl)
  | inr other ↦ rw other (erase_all-Fades ks f j)
]

pub Cleared-write :
    (k : String) (ks : List String) (f : String → Option String)
    → Cleared ks f
    → Cleared ks (write k none f)
Cleared-write k [] f c = tt
Cleared-write k (l ∷ ks) f c = (
  elim (Bool-cases (str_eq l k)) [ inl same ↦ rw same refl | inr other ↦ rw other c.0 ],
  Cleared-write k ks f c.1,
)

pub erase_all-Cleared :
    (ks : List String) (f : String → Option String) → Cleared ks (erase_all ks f)
erase_all-Cleared [] f = tt
erase_all-Cleared (k ∷ ks) f = (
  write_self k none (erase_all ks f),
  Cleared-write k ks (erase_all ks f) (erase_all-Cleared ks f),
)

abbrev pub steady : Redis
steady = record {
  Server = Local;
  entry = λ s. s.entry;
  ttl = λ s. s.ttl;
  counter = λ s. s.counter;
  get = λ k s. (ok (s.entry k), s);
  setex = λ k seconds v s.
      (ok tt, record s { entry = write k (some v) s.entry; ttl = write k (some seconds) s.ttl });
  delete = λ k s. (ok tt, record s { entry = write k none s.entry });
  delete_all = λ ks s. (ok tt, record s { entry = erase_all ks s.entry });
  incr =
      λ k s. (ok (suc (s.counter k)), record s { counter = write k (suc (s.counter k)) s.counter });
  expire = λ k seconds s. (ok tt, record s { ttl = write k (some seconds) s.ttl });
  ping = λ s. (ok true, s);
  get_law = λ k s. (refl, λ j. inl refl);
  setex_law = λ k seconds v s.
      (write_self k (some v) s.entry, write_self k (some seconds) s.ttl, write-Puts k v s.entry);
  delete_law = λ k s. (write_self k none s.entry, write-Fades k s.entry);
  delete_all_law = λ ks s. (erase_all-Cleared ks s.entry, erase_all-Fades ks s.entry);
  incr_law = λ k s. (write_self k (suc (s.counter k)) s.counter, inl (refl, refl));
  incr_entries = λ k s j h. inl refl;
  expire_entries = λ k seconds s j h. inl refl;
  expire_law = λ k seconds s. (refl, write_self k (some seconds) s.ttl);
  ping_law = λ s. tt;
}

abbrev pub steady_steady : IsSteady steady
steady_steady = record {
  gets = λ k s. refl;
  sets = λ k seconds v s. tt;
  incrs = λ k s. tt;
  expires = λ k seconds s. tt;
}

-- Every command raises.
abbrev pub down : {A : Type 0} → Exec Local A
down s = (err (unexpected 7), s)

abbrev pub failing : Redis
failing = record {
  Server = Local;
  entry = λ s. s.entry;
  ttl = λ s. s.ttl;
  counter = λ s. s.counter;
  get = λ k. down;
  setex = λ k seconds v. down;
  delete = λ k. down;
  delete_all = λ ks. down;
  incr = λ k. down;
  expire = λ k seconds. down;
  ping = down;
  get_law = λ k s. (tt, λ j. inl refl);
  setex_law = λ k seconds v s. (tt, λ j. inl refl);
  delete_law = λ k s. (tt, λ j. inl refl);
  delete_all_law = λ ks s. (tt, λ j. inl refl);
  incr_law = λ k s. tt;
  incr_entries = λ k s j h. inl refl;
  expire_entries = λ k seconds s j h. inl refl;
  expire_law = λ k seconds s. (tt, refl, inl refl);
  ping_law = λ s. tt;
}

abbrev pub empty : Local
empty = record { entry = λ k. none; ttl = λ k. none; counter = λ k. 0 }

-- What a failed EXPIRE leaves after the first request.
abbrev pub expireless : Local
expireless = record empty { counter = λ k. 1 }
