-- ===== src/Json.antt =====
-- JSONB values as SQLAlchemy hands them to Python, and the coercions that the configuration
-- readers apply to them: `int(v)`, `bool(v)`, `d.get(k, default)`.
use think_tank.Prelude.{
  ◌≡◌, refl, ◌⊎◌, inl, inr, ℕ, zero, suc, ◌+◌, ◌-◌, ◌*◌, ◌/◌, ◌^◌, ℤ, pos, negsuc, sub_ℕ, String,
  Bool, true, false, not, ◌&&◌, Option, none, some, List, [], ◌∷◌, leb, ◌==◌, str_eq, if◌then◌else◌,
  codes, strip, same, eq_iff, arith, Bool-cases, subst, sym,
}

-- A number with a fraction or an exponent is `float m k`, m / 10^k; doubles are not rounded here.
mutual
  pub data Fields : Type 0 where
    empty : Fields
    entry : String → Value → Fields → Fields

  pub data Items : Type 0 where
    no_items : Items
    item : Value → Items → Items

  pub data Value : Type 0 where
    null : Value
    bool : Bool → Value
    int : ℤ → Value
    float : ℤ → ℕ → Value
    str : String → Value
    arr : Items → Value
    obj : Fields → Value

-- The exceptions that the coercions raise.
pub data PyError : Type 0 where
  type_error value_error overflow_error attribute_error : PyError

pub data Result {ℓ} (A : Type ℓ) : Type ℓ where
  ok : A → Result A
  raise : PyError → Result A

pub Result-cases {ℓ} :
    {A : Type ℓ} (r : Result A) → ((a : A) × (r ≡ ok a)) ⊎ ((e : PyError) × (r ≡ raise e))
Result-cases (ok a) = inl (a, refl)
Result-cases (raise e) = inr (e, refl)

infixl 5 ◌>>=◌
abbrev pub ◌>>=◌ {ℓ κ} : {A : Type ℓ} {B : Type κ} → Result A → (A → Result B) → Result B
raise e >>= next = raise e
ok a >>= next = next a

-- `d.get(key, default)`
unfoldable pub get : Fields → String → Value → Value
get empty k default = default
get (entry j v fs) k default = if str_eq j k then v else get fs k default

-- `d[key]`, `none` when `key not in d`.
unfoldable pub lookup : Fields → String → Option Value
lookup empty k = none
lookup (entry j v fs) k = if str_eq j k then some v else lookup fs k

-- `d[key] = v`
unfoldable pub put : Fields → String → Value → Fields
put empty k v = entry k v empty
put (entry j w fs) k v = if str_eq j k then entry j v fs else entry j w (put fs k v)

is_digit : ℕ → Bool
is_digit c = leb b'0' c && leb c b'9'

-- Decimal digits, one underscore allowed between two of them; the flag says that a digit came
-- just before.
digits : Bool → ℕ → List ℕ → Option ℕ
digits after_digit n [] = if after_digit then some n else none
digits after_digit n (c ∷ s) =
    let more = digits true (n * 10 + (c - b'0')) s in
    let under = digits false n s in
    if is_digit c then more else if after_digit && c == b'_' then under else none

signed : List ℕ → Option ℤ
unfolding digits is_digit
signed [] = none
signed (c ∷ s) =
    if c == b'-'
    then elim (digits false 0 s) [ none ↦ none | some n ↦ some (sub_ℕ 0 n) ]
    else if c == b'+'
    then elim (digits false 0 s) [ none ↦ none | some n ↦ some (pos n) ]
    else elim (digits false 0 (c ∷ s)) [ none ↦ none | some n ↦ some (pos n) ]

-- `int(text)` on ASCII text; `none` is ValueError.
unfoldable pub parse_int : List ℕ → Option ℤ
unfolding signed
parse_int s = signed (strip s)

-- `int(v)`; a float is cut towards zero.
unfoldable pub to_int : Value → Result ℤ
unfolding parse_int
to_int null = raise type_error
to_int (bool b) = ok (if b then pos 1 else pos 0)
to_int (int n) = ok n
to_int (float (pos m) k) = ok (pos (m / 10 ^ k))
to_int (float (negsuc m) k) = ok (sub_ℕ 0 (suc m / 10 ^ k))
to_int (str s) = elim (parse_int (codes s)) [ none ↦ raise value_error | some n ↦ ok n ]
to_int (arr xs) = raise type_error
to_int (obj fs) = raise type_error

-- `bool(v)`
unfoldable pub truthy : Value → Bool
truthy null = false
truthy (bool b) = b
truthy (int (pos zero)) = false
truthy (int _) = true
truthy (float (pos zero) k) = false
truthy (float _ k) = true
truthy (str s) = not (same (codes s) [])
truthy (arr no_items) = false
truthy (arr (item x xs)) = true
truthy (obj empty) = false
truthy (obj (entry k v fs)) = true

pub get-put : (fs : Fields) (k : String) (v d : Value) → get (put fs k v) k d ≡ v
unfolding get put
get-put empty k v d = ground (arith, eq_iff k k)
get-put (entry j w fs) k v d = ground (arith, get-put fs k v d, eq_iff j k)

-- Another key keeps its value.
pub get-put_other :
    (fs : Fields) (k j : String) (v d : Value)
    → str_eq k j ≡ false
    → get (put fs k v) j d ≡ get fs j d
unfolding get put
get-put_other empty k j v d h = ground (arith, h)
get-put_other (entry i w fs) k j v d h = elim (Bool-cases (str_eq i k)) [
  | inl e ↦ let q = subst (λ x. str_eq x j ≡ false) (sym ((eq_iff i k).0 e)) h in rw e (rw q refl)
  | inr e ↦ rw e (ground (arith, get-put_other fs k j v d h))
]
