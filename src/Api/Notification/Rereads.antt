-- ===== src/Api/Notification/Rereads.antt =====
-- internal/api/types.go: the fields of a notification, written and read again.
use mathlib.Core.Path.{subst}
use aladdin_solver_engine.Prelude.{
  >>=-eq-ok, Bool-cases, Error, List, Option, Option-cases, Text, [], ap, arith, digits,
  expected_uint64, false, inl, inr, invalid_integer, is_empty, ltb, none, ok, ok-injective,
  parse_digits, parse_digits-digits, parse_nat, refl, show_nat, some, some-injective, suc, true,
  zero, ℕ, ◌%◌, ◌+◌, ◌/◌, ◌<◌, ◌==◌, ◌>>=◌, ◌^◌, ◌∷◌, ◌≡◌,
}
use aladdin_solver_engine.Json.{Json, Raw, arr, bool, items_of, null, num, obj, str}
use aladdin_solver_engine.Contract.{decode_uint64}
use aladdin_solver_engine.Contract.Notification.{parse_int64}
use aladdin_solver_engine.Api.Notification.Kinds.{or_error}
use aladdin_solver_engine.Api.Notification.{
  NotificationSolutionId, auction_id_json, decode_ids, encode_ids, marshal_solution_id, new_merged,
  new_single, read_auction_id, read_kind, read_solution_id, solution_id_json, unmarshal_solution_id,
}

IsCons : Text → Type 0
IsCons t = (c : ℕ) × (rest : Text) × (t ≡ c ∷ rest)

digits-IsCons : (fuel n c : ℕ) (acc : Text) → IsCons (digits fuel n (c ∷ acc))
unfolding digits IsCons
digits-IsCons zero n c acc = (c, acc, refl)
digits-IsCons (suc fuel) n c acc = elim (Bool-cases (n / 10 == 0)) [
  | inl z ↦ rw (digits, z) (n % 10 + b'0', c ∷ acc, refl)
  | inr z ↦ rw (digits, z) (digits-IsCons fuel (n / 10) (n % 10 + b'0') (c ∷ acc))
]

show_nat-IsCons : (n : ℕ) → IsCons (show_nat n)
unfolding digits IsCons
show_nat-IsCons n = elim (Bool-cases (n / 10 == 0)) [
  | inl z ↦ rw (digits, z) (n % 10 + b'0', [], refl)
  | inr z ↦ rw (digits, z) (digits-IsCons n (n / 10) (n % 10 + b'0') [])
]

parse_nat-show_nat : (n : ℕ) → parse_nat (show_nat n) ≡ some n
unfolding IsCons parse_digits
parse_nat-show_nat n =
    let (c, rest, e) = show_nat-IsCons n in
    let read : parse_digits (show_nat n) 0 ≡ some n =
      parse_digits-digits (suc n) n [] (omega arith) in
    rw e (rw e at read)

decode_uint64-show_nat : (n : ℕ) → n < 2 ^ 64 → decode_uint64 (num (show_nat n)) ≡ some n
unfolding decode_uint64
decode_uint64-show_nat n h =
    let fits : ltb n (2 ^ 64) ≡ true = ground arith in
    rw (decode_uint64, parse_nat-show_nat n, fits) refl

pub or_error-ok : {A : Type 0} (o : Option A) (e : Error) (a : A) → or_error o e ≡ ok a → o ≡ some a
or_error-ok none e a h = cc
or_error-ok (some b) e a h = ap some (ok-injective b a h)

decode_uint64-small : (j : Json) (n : ℕ) → decode_uint64 j ≡ some n → n < 2 ^ 64
unfolding decode_uint64
decode_uint64-small (num t) n h = elim (Option-cases (parse_nat t)) [
  | inl e ↦ let clash = rw (decode_uint64, e) at h in cc
  | inr (v, e) ↦ elim (Bool-cases (ltb v (2 ^ 64))) [
    | inl fits ↦ ground (arith, some-injective v n (rw (decode_uint64, e, fits) at h))
    | inr wide ↦ let clash = rw (decode_uint64, e, wide) at h in cc
  ]
]
decode_uint64-small null n h = cc
decode_uint64-small (bool b) n h = cc
decode_uint64-small (str s) n h = cc
decode_uint64-small (arr xs) n h = cc
decode_uint64-small (obj fs) n h = cc

-- Numbers of 64 bits are read as they are written.
encode_ids-read :
    (js : List Json) (ns : List ℕ)
    → decode_ids js ≡ ok ns
    → decode_ids (items_of (encode_ids ns)) ≡ ok ns
unfolding decode_ids encode_ids items_of
encode_ids-read [] ns h =
    subst (λ l. decode_ids (items_of (encode_ids l)) ≡ ok l) (ok-injective [] ns h) refl
encode_ids-read (j ∷ js) ns h =
    let (n, first, h1) = >>=-eq-ok (or_error (decode_uint64 j) expected_uint64) _ h in
    let (rest, others, h2) = >>=-eq-ok (decode_ids js) _ h1 in
    let small = decode_uint64-small j n (or_error-ok (decode_uint64 j) expected_uint64 n first) in
    let later = encode_ids-read js rest others in
    subst (λ l. decode_ids (items_of (encode_ids l)) ≡ ok l) (ok-injective (n ∷ rest) ns h2)
      (rw (decode_ids, decode_uint64-show_nat n small, later) refl)

-- What is written of an identifier is read as that identifier.
abbrev Rereads : NotificationSolutionId → Type 0
Rereads id =
    (j : Json) × (marshal_solution_id id ≡ ok j) × (read_solution_id (some j) ≡ ok (some id))

merged-Rereads :
    (js : List Json) (id : NotificationSolutionId)
    → (decode_ids js >>= λ values. ok (new_merged values)) ≡ ok id
    → Rereads id
unfolding marshal_solution_id new_merged read_solution_id unmarshal_solution_id
merged-Rereads js id h =
    let (values, e, h1) = >>=-eq-ok (decode_ids js) _ h in
    subst Rereads (ok-injective (new_merged values) id h1)
      (arr (encode_ids values), refl, rw (encode_ids-read js values e) refl)

single-Rereads :
    (j : Json) (id : NotificationSolutionId)
    → (or_error (decode_uint64 j) expected_uint64 >>= λ value. ok (new_single value)) ≡ ok id
    → Rereads id
unfolding marshal_solution_id new_single read_solution_id unmarshal_solution_id
single-Rereads j id h =
    let (value, e, h1) = >>=-eq-ok (or_error (decode_uint64 j) expected_uint64) _ h in
    let small =
      decode_uint64-small j value (or_error-ok (decode_uint64 j) expected_uint64 value e) in
    subst Rereads (ok-injective (new_single value) id h1)
      (num (show_nat value), refl, rw (decode_uint64-show_nat value small) refl)

unmarshal-Rereads :
    (j : Json) (id : NotificationSolutionId) → unmarshal_solution_id j ≡ ok id → Rereads id
unfolding unmarshal_solution_id
unmarshal-Rereads (arr xs) id h = merged-Rereads (items_of xs) id h
unmarshal-Rereads null id h = single-Rereads null id h
unmarshal-Rereads (bool b) id h = single-Rereads (bool b) id h
unmarshal-Rereads (num n) id h = single-Rereads (num n) id h
unmarshal-Rereads (str s) id h = single-Rereads (str s) id h
unmarshal-Rereads (obj fs) id h = single-Rereads (obj fs) id h

read_auction_id-str :
    (s : Text) (a : Option Text)
    → read_auction_id (some (str s)) ≡ ok a
    → read_auction_id (some (auction_id_json a)) ≡ ok a
unfolding read_auction_id auction_id_json
read_auction_id-str s a h =
    let (v, e, h1) = >>=-eq-ok (or_error (parse_int64 s) invalid_integer) _ h in
    subst (λ o. read_auction_id (some (auction_id_json o)) ≡ ok o) (ok-injective (some s) a h1)
      (rw e refl)

read_auction_id-nil :
    (a : Option Text) → ok none ≡ ok a → read_auction_id (some (auction_id_json a)) ≡ ok a
unfolding read_auction_id auction_id_json
read_auction_id-nil a h =
    subst (λ o. read_auction_id (some (auction_id_json o)) ≡ ok o) (ok-injective none a h) refl

pub read_auction_id-reread :
    (raw : Raw) (a : Option Text)
    → read_auction_id raw ≡ ok a
    → read_auction_id (some (auction_id_json a)) ≡ ok a
unfolding read_auction_id
read_auction_id-reread none a h = read_auction_id-nil a h
read_auction_id-reread (some null) a h = read_auction_id-nil a h
read_auction_id-reread (some (str s)) a h = read_auction_id-str s a h
read_auction_id-reread (some (bool b)) a h = cc
read_auction_id-reread (some (num n)) a h = cc
read_auction_id-reread (some (arr xs)) a h = cc
read_auction_id-reread (some (obj fs)) a h = cc

-- What is written of an optional identifier is read as that.
abbrev pub RereadsOption : Option NotificationSolutionId → Type 0
RereadsOption o = (j : Json) × (solution_id_json o ≡ ok j) × (read_solution_id (some j) ≡ ok o)

nil-RereadsOption : (o : Option NotificationSolutionId) → ok none ≡ ok o → RereadsOption o
unfolding solution_id_json read_solution_id
nil-RereadsOption o h = subst RereadsOption (ok-injective none o h) (null, refl, refl)

json-RereadsOption :
    (j : Json) (o : Option NotificationSolutionId)
    → (unmarshal_solution_id j >>= λ id. ok (some id)) ≡ ok o
    → RereadsOption o
unfolding solution_id_json
json-RereadsOption j o h =
    let (id, e, h1) = >>=-eq-ok (unmarshal_solution_id j) _ h in
    subst RereadsOption (ok-injective (some id) o h1) (unmarshal-Rereads j id e)

pub read_solution_id-RereadsOption :
    (raw : Raw) (o : Option NotificationSolutionId) → read_solution_id raw ≡ ok o → RereadsOption o
unfolding read_solution_id
read_solution_id-RereadsOption none o h = nil-RereadsOption o h
read_solution_id-RereadsOption (some null) o h = nil-RereadsOption o h
read_solution_id-RereadsOption (some (bool b)) o h = json-RereadsOption (bool b) o h
read_solution_id-RereadsOption (some (num n)) o h = json-RereadsOption (num n) o h
read_solution_id-RereadsOption (some (str s)) o h = json-RereadsOption (str s) o h
read_solution_id-RereadsOption (some (arr xs)) o h = json-RereadsOption (arr xs) o h
read_solution_id-RereadsOption (some (obj fs)) o h = json-RereadsOption (obj fs) o h

pub read_kind-reread :
    (raw : Raw) (k : Text)
    → read_kind raw ≡ ok k
    → (read_kind (some (str k)) ≡ ok k) × (is_empty k ≡ false)
unfolding read_kind
read_kind-reread (some (str (c ∷ cs))) k h =
    subst (λ t. (read_kind (some (str t)) ≡ ok t) × (is_empty t ≡ false))
      (ok-injective (c ∷ cs) k h) (refl, refl)
read_kind-reread none k h = cc
read_kind-reread (some null) k h = cc
read_kind-reread (some (str [])) k h = cc
read_kind-reread (some (bool b)) k h = cc
read_kind-reread (some (num n)) k h = cc
read_kind-reread (some (arr xs)) k h = cc
read_kind-reread (some (obj fs)) k h = cc
