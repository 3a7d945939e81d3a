-- ===== src/Common/Die.antt =====
-- `DIE_NOW` prints a message and stops the hypervisor. A function that may reach it returns an
-- `Outcome`, and the constructors of `Death` are the messages. The last, `endless`, is for a loop
-- that has used up its fuel.
use mathlib.Core.Path.{◌≡◌, refl}
use mathlib.Core.Logic.{◌⊎◌, inl, inr}

pub data Death : Type 0 where
  bad_access_size : Death
  read_only_register : Death
  write_only_register : Death
  not_implemented : Death
  no_such_register : Death
  irq_out_of_range : Death
  unknown_source : Death
  bad_mode : Death
  table_not_mapped : Death
  store_full : Death
  unreachable : Death
  reserved_entry : Death
  reserved_domain : Death
  reserved_permission : Death
  existing_entry : Death
  not_shadow_mapped : Death
  no_metadata : Death
  not_host_table : Death
  out_of_memory : Death
  misaligned_table : Death
  bad_range : Death
  too_many_loops : Death
  panic : Death
  no_child : Death
  no_load_function : Death
  endless : Death

pub data Outcome {ℓ} (A : Type ℓ) : Type ℓ where
  ok : A → Outcome A
  die : Death → Outcome A

infixl 5 ◌>>=◌
abbrev pub ◌>>=◌ {ℓ κ} : {A : Type ℓ} {B : Type κ} → Outcome A → (A → Outcome B) → Outcome B
ok a >>= f = f a
die m >>= f = die m

-- The call returns, with a value that satisfies `P`.
abbrev pub Returns {ℓ κ} : {A : Type ℓ} → Outcome A → (A → Type κ) → Type (ℓ ⊔ κ)
Returns {A} r P = (a : A) × (r ≡ ok a) × P a

-- A sequence that returns has returned from its first part.
pub >>=-eq-ok {ℓ κ} :
    {A : Type ℓ} {B : Type κ} (first : Outcome A) (rest : A → Outcome B) {out : B}
    → (first >>= rest) ≡ ok out
    → (mid : A) × (first ≡ ok mid) × (rest mid ≡ ok out)
>>=-eq-ok (ok mid) rest h = (mid, refl, h)
>>=-eq-ok (die death) rest h = cc

pub die-ne-ok {ℓ} : {A : Type ℓ} {e : Death} {a : A} → die e ≡ ok a → ⊥
die-ne-ok h = cc

pub Outcome-cases {ℓ} :
    {A : Type ℓ} (o : Outcome A) → ((a : A) × (o ≡ ok a)) ⊎ ((e : Death) × (o ≡ die e))
Outcome-cases (ok a) = inl (a, refl)
Outcome-cases (die e) = inr (e, refl)
