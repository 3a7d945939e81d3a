-- ===== src/Devices/Routing.antt =====
-- A tree in which siblings are apart is a list of ranges: an access finds the device whose range has
-- the address, or none.
use hyparm.Common.{
  ℕ, zero, suc, ◌≡◌, refl, arith, Bool, true, false, ◌&&◌, ◌||◌, leb, ltb, if◌then◌else◌,
  Bool-cases, Option-cases, inl, inr, List, [], ◌∷◌, ◌++◌, Option, none, some, Outcome, die,
  no_child, no_load_function,
}
use hyparm.Devices.Tree.{
  Device, Functions, device_at, is_generic, is_address_in_device, call_function, find_attached,
}
use hyparm.Devices.MemoryMap.{Range, row, find_row}

-- What answers in a row: a device's own functions, with the place of the device.
abbrev pub answer :
    {A : Type 0} → (Functions → (start_address : ℕ) → Outcome A) → Option Range → Outcome A
answer own none = die no_child
answer own (some r) =
    if is_generic r.functions then die no_load_function else own r.functions r.first

-- The ranges of the end devices below a device.
abbrev flat_all : (ℕ → List Range) → List ℕ → List Range
flat_all f [] = []
flat_all f (i ∷ is) = f i ++ flat_all f is

abbrev is_generic_bus : Device → Bool
is_generic_bus d = is_generic d.functions && d.is_bus

unfoldable pub ranges : (fuel : ℕ) → List Device → ℕ → List Range
ranges zero ds n = []
ranges (suc fuel) ds n =
    let d = device_at ds n in
    let below = flat_all (ranges fuel ds) d.attached_devices in
    if is_generic_bus d
    then below
    else row d.start_address_mapped d.end_address_mapped d.functions ∷ []

abbrev is_within : Device → Device → Bool
is_within d c =
    leb d.start_address_mapped c.start_address_mapped
    && leb c.end_address_mapped d.end_address_mapped

abbrev is_apart : Device → Device → Bool
is_apart c d =
    ltb c.end_address_mapped d.start_address_mapped
    || ltb d.end_address_mapped c.start_address_mapped

abbrev apart_all : List Device → (i : ℕ) → List ℕ → Bool
apart_all ds i [] = true
apart_all ds i (j ∷ js) = is_apart (device_at ds i) (device_at ds j) && apart_all ds i js

abbrev sound_all : (ℕ → Bool) → List Device → Device → List ℕ → Bool
sound_all f ds d [] = true
sound_all f ds d (i ∷ is) =
    f i && (is_within d (device_at ds i) && (apart_all ds i is && sound_all f ds d is))

-- Attached devices lie in their bus, and apart from each other; no branch is longer than the fuel.
unfoldable pub is_sound : (fuel : ℕ) → List Device → ℕ → Bool
is_sound zero ds n = false
is_sound (suc fuel) ds n =
    let d = device_at ds n in
    let below = sound_all (is_sound fuel ds) ds d d.attached_devices in
    if is_generic_bus d then below else true

pub and_true : (a b : Bool) → (a && b) ≡ true → (a ≡ true) × (b ≡ true)
and_true true b h = (refl, h)
and_true false b h = ground (arith, h)

abbrev or_else : Option Range → Option Range → Option Range
or_else none o = o
or_else (some r) o = some r

find_row-++ :
    (xs ys : List Range) (a : ℕ) → find_row (xs ++ ys) a ≡ or_else (find_row xs a) (find_row ys a)
find_row-++ [] ys a = refl
find_row-++ (x ∷ xs) ys a = elim (Bool-cases (leb x.first a && leb a x.last)) [
  | inl e ↦ rw e refl
  | inr e ↦ rw e (find_row-++ xs ys a)
]

module _ (ds : List Device) (a : ℕ) where
  abbrev holds : ℕ → Bool
  holds n = is_address_in_device a (device_at ds n)

  -- No range below a device that does not have the address has it.
  Outside : (fuel : ℕ) → Type 0
  Outside fuel =
      (n : ℕ) → is_sound fuel ds n ≡ true → holds n ≡ false → find_row (ranges fuel ds n) a ≡ none

  branches_miss :
      (fuel : ℕ) (d : Device) (is : List ℕ)
      → Outside fuel
      → sound_all (is_sound fuel ds) ds d is ≡ true
      → is_address_in_device a d ≡ false
      → find_row (flat_all (ranges fuel ds) is) a ≡ none
  unfolding Outside
  branches_miss fuel d [] one_out sound out = refl
  branches_miss fuel d (i ∷ is) one_out sound out =
      let (one, rest) = and_true (is_sound fuel ds i) _ sound in
      let (inside, rest2) = and_true (is_within d (device_at ds i)) _ rest in
      let (apart, rest3) = and_true (apart_all ds i is) _ rest2 in
      let beyond : holds i ≡ false = ground (arith, inside, out) in
      rw (find_row-++ (ranges fuel ds i) (flat_all (ranges fuel ds) is) a, one_out i one beyond)
        (branches_miss fuel d is one_out rest3 out)

  misses : (fuel : ℕ) → Outside fuel
  unfolding Outside is_sound ranges
  misses zero n sound out = refl
  misses (suc fuel) n sound out = elim (Bool-cases (is_generic_bus (device_at ds n))) [
    | inl e ↦
        let d = device_at ds n in
        let below : sound_all (is_sound fuel ds) ds d d.attached_devices ≡ true = rw e at sound in
        rw e (branches_miss fuel d d.attached_devices (misses fuel) below out)
    | inr e ↦ rw (e, out) refl
  ]

  -- The devices after one that has the address do not have it.
  after_hit :
      (fuel : ℕ) (d : Device) (i : ℕ) (is : List ℕ)
      → sound_all (is_sound fuel ds) ds d is ≡ true
      → apart_all ds i is ≡ true
      → holds i ≡ true
      → find_row (flat_all (ranges fuel ds) is) a ≡ none
  unfolding Outside
  after_hit fuel d i [] sound apart hit = refl
  after_hit fuel d i (j ∷ is) sound apart hit =
      let (one, rest) = and_true (is_sound fuel ds j) _ sound in
      let (inside, rest2) = and_true (is_within d (device_at ds j)) _ rest in
      let (others, rest3) = and_true (apart_all ds j is) _ rest2 in
      let (first, apart2) = and_true (is_apart (device_at ds i) (device_at ds j)) _ apart in
      let beyond : holds j ≡ false = ground (arith, first, hit) in
      rw (find_row-++ (ranges fuel ds j) (flat_all (ranges fuel ds) is) a, misses fuel j one beyond)
        (after_hit fuel d i is rest3 apart2 hit)

  module _ {A : Type 0} (own : Functions → ℕ → Outcome A) where
    abbrev call : (fuel n : ℕ) → Outcome A
    call fuel n = call_function (λ f dev. own f (device_at ds dev).start_address_mapped) fuel ds n a

    unfoldable pub Finds : (fuel : ℕ) → Type 0
    Finds fuel =
        (n : ℕ)
        → is_sound fuel ds n ≡ true
        → holds n ≡ true
        → call fuel n ≡ answer own (find_row (ranges fuel ds n) a)

    branches_route :
        (fuel : ℕ) (d : Device) (is : List ℕ)
        → Finds fuel
        → sound_all (is_sound fuel ds) ds d is ≡ true
        → (elim (find_attached ds is a) [ none ↦ die no_child | some child ↦ call fuel child ])
          ≡ answer own (find_row (flat_all (ranges fuel ds) is) a)
    unfolding Finds find_attached Outside
    branches_route fuel d [] one_finds sound = refl
    branches_route fuel d (i ∷ is) one_finds sound =
        let (one, rest) = and_true (is_sound fuel ds i) _ sound in
        let (inside, rest2) = and_true (is_within d (device_at ds i)) _ rest in
        let (apart, rest3) = and_true (apart_all ds i is) _ rest2 in
        elim (Bool-cases (holds i)) [
          | inl hit ↦
              let none_after = after_hit fuel d i is rest3 apart hit in
              let found = one_finds i one hit in
              let split = find_row-++ (ranges fuel ds i) (flat_all (ranges fuel ds) is) a in
              elim (Option-cases (find_row (ranges fuel ds i) a)) [
                | inl e ↦ rw (hit, split, e, none_after) (rw e at found)
                | inr (r, e) ↦ rw (hit, split, e) (rw e at found)
              ]
          | inr miss ↦
              rw
                (
                  miss,
                  find_row-++ (ranges fuel ds i) (flat_all (ranges fuel ds) is) a,
                  misses fuel i one miss,
                )
                (branches_route fuel d is one_finds rest3)
        ]

    pub finds : (fuel : ℕ) → Finds fuel
    unfolding Finds is_sound ranges call_function
    finds zero n sound hit = ground (arith, sound)
    finds (suc fuel) n sound hit =
        let d = device_at ds n in
        elim (Bool-cases (is_generic d.functions)) [
          | inl g ↦ elim (Bool-cases d.is_bus) [
            | inl b ↦
                let below : sound_all (is_sound fuel ds) ds d d.attached_devices ≡ true =
                  rw (g, b) at sound in
                rw (g, b) (branches_route fuel d d.attached_devices (finds fuel) below)
            | inr b ↦ rw (g, b, hit) (rw g refl)
          ]
          | inr g ↦ rw (g, hit) (rw g refl)
        ]
