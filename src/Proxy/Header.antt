-- ===== src/Proxy/Header.antt =====
-- The headers of net/http as whttp/proxy.go uses them, and copyHeader: a map from names to values.
-- A later entry for a name takes the place of the earlier one.
use wgo.Common.{
  is_lower, to_upper, is_upper, to_lower, ℕ, ◌≡◌, refl, ap, ◌∙◌, inl, inr, Bool, true, false, ◌&&◌,
  ◌||◌, Option, none, some, List, [], ◌∷◌, ◌++◌, Bytes, bytes, bytes_eq, bytes_eq_iff,
  bytes_eq_of_ne, sym, ◌==◌, leb, if◌then◌else◌, Bool-cases, arith, append_nil, append_step,
}

abbrev pub Header : Type 0
Header = List (Bytes × List Bytes)

abbrev pub is_empty : Bytes → Bool
is_empty [] = true
is_empty (b ∷ bs) = false

abbrev any_of : Bytes → ℕ → Bool
any_of [] b = false
any_of (c ∷ cs) b = c == b || any_of cs b

-- The bytes of a header's name, a token of RFC 7230.
is_token_byte : ℕ → Bool
is_token_byte b =
    is_upper b || is_lower b || leb b'0' b && leb b b'9' || any_of (bytes "!#$%&'*+-.^_`|~") b

all_token : Bytes → Bool
unfolding is_token_byte
all_token [] = true
all_token (b ∷ bs) = is_token_byte b && all_token bs

canonical_from : Bool → Bytes → Bytes
canonical_from start [] = []
canonical_from start (b ∷ bs) =
    (if start then to_upper b else to_lower b) ∷ canonical_from (b == b'-') bs

-- `textproto.CanonicalMIMEHeaderKey`: a letter is upper case at the start and behind a dash, else
-- lower case; a name that is no token stays as it is.
unfoldable pub canonical : Bytes → Bytes
unfolding all_token canonical_from
canonical k = if all_token k then canonical_from true k else k

-- `h[k]` with its test
unfoldable pub values : Header → Bytes → Option (List Bytes)
values [] k = none
values ((k', vs) ∷ rest) k = if bytes_eq k' k then some vs else values rest k

-- `delete(h, k)`
unfoldable pub remove : Header → Bytes → Header
remove [] k = []
remove ((k', vs) ∷ rest) k =
    let rest' = remove rest k in if bytes_eq k' k then rest' else (k', vs) ∷ rest'

-- `h[k] = vs`
unfoldable pub put : Header → Bytes → List Bytes → Header
put h k vs = (k, vs) ∷ remove h k

abbrev pub first : Option (List Bytes) → Bytes
first none = []
first (some []) = []
first (some (v ∷ vs)) = v

abbrev pub all_values : Option (List Bytes) → List Bytes
all_values none = []
all_values (some vs) = vs

unfoldable pub header_get : Header → Bytes → Bytes
header_get h k = first (values h (canonical k))

unfoldable pub header_set : Header → Bytes → Bytes → Header
header_set h k v = put h (canonical k) (v ∷ [])

unfoldable pub header_add : Header → Bytes → Bytes → Header
header_add h k v = put h (canonical k) (all_values (values h (canonical k)) ++ v ∷ [])

unfoldable pub header_del : Header → Bytes → Header
header_del h k = remove h (canonical k)

unfoldable pub add_all : Header → Bytes → List Bytes → Header
add_all dst k [] = dst
add_all dst k (v ∷ vs) = add_all (header_add dst k v) k vs

-- `copyHeader`
unfoldable pub copy_header : Header → Header → Header
copy_header dst [] = dst
copy_header dst ((k, vs) ∷ src) = copy_header (add_all dst k vs) src

bytes_eq_swap : (a b c : Bytes) → bytes_eq a b ≡ true → bytes_eq a c ≡ bytes_eq b c
bytes_eq_swap a b c h = ap (λ (x : Bytes). bytes_eq x c) ((bytes_eq_iff a b).0 h)

bytes_eq_apart :
    (j k k' : Bytes) → bytes_eq j k ≡ false → bytes_eq j k' ≡ true → bytes_eq k k' ≡ false
bytes_eq_apart j k k' d e =
    bytes_eq_of_ne k k' (λ q. cc (d, (bytes_eq_iff j k).1 ((bytes_eq_iff j k').0 e ∙ sym q)))

pub values-remove :
    (h : Header) (k k' : Bytes)
    → values (remove h k) k' ≡ (if bytes_eq k k' then none else values h k')
unfolding values remove
values-remove [] k k' = ground arith
values-remove ((j, vs) ∷ rest) k k' = elim (Bool-cases (bytes_eq j k)) [
  | inl e ↦ rw e (ground (arith, values-remove rest k k', bytes_eq_swap j k k' e))
  | inr e ↦ rw e (ground (arith, values-remove rest k k', bytes_eq_apart j k k' e))
]

pub values-put :
    (h : Header) (k k' : Bytes) (vs : List Bytes)
    → values (put h k vs) k' ≡ (if bytes_eq k k' then some vs else values h k')
unfolding values put
values-put h k k' vs = ground (arith, values-remove h k k')

-- Reading a header behind a change.

pub get-header_del :
    (h : Header) (k k' : Bytes)
    → header_get (header_del h k) k'
      ≡ (if bytes_eq (canonical k) (canonical k') then [] else header_get h k')
unfolding header_get header_del
get-header_del h k k' = ground (arith, values-remove h (canonical k) (canonical k'))

pub get-header_set :
    (h : Header) (k k' v : Bytes)
    → header_get (header_set h k v) k'
      ≡ (if bytes_eq (canonical k) (canonical k') then v else header_get h k')
unfolding header_get header_set
get-header_set h k k' v = ground (arith, values-put h (canonical k) (canonical k') (v ∷ []))

canonical_run : canonical (bytes "x-wGO-depth") ≡ bytes "X-Wgo-Depth"
unfolding canonical
canonical_run = refl

-- Every name is in its canonical form and has one entry, as the headers of a parsed request do.
abbrev pub IsCanonical : Header → Type 0
IsCanonical [] = Unit
IsCanonical ((k, vs) ∷ rest) = (canonical k ≡ k) × (values rest k ≡ none) × IsCanonical rest

pub first_lem : (o : Option (List Bytes)) → first o ≡ first (some (all_values o))
first_lem none = refl
first_lem (some []) = refl
first_lem (some (v ∷ vs)) = refl

abbrev listed : Header → Bytes → List Bytes
listed h k = all_values (values h k)

listed-header_add :
    (h : Header) (k v k' : Bytes)
    → canonical k ≡ k
    → listed (header_add h k v) k' ≡ (if bytes_eq k k' then listed h k' ++ v ∷ [] else listed h k')
unfolding header_add
listed-header_add h k v k' c = rw c (elim (Bool-cases (bytes_eq k k')) [
  | inl e ↦ ground (
    arith,
    values-put h k k' (listed h k ++ v ∷ []),
    e,
    ap (λ (x : Bytes). listed h x ++ v ∷ []) ((bytes_eq_iff k k').0 e),
  )
  | inr e ↦ ground (arith, values-put h k k' (listed h k ++ v ∷ []), e)
])

listed-add_all :
    (vs : List Bytes) (h : Header) (k k' : Bytes)
    → canonical k ≡ k
    → listed (add_all h k vs) k' ≡ (if bytes_eq k k' then listed h k' ++ vs else listed h k')
unfolding add_all
listed-add_all [] h k k' c = ground (arith, append_nil (listed h k'))
listed-add_all (v ∷ vs) h k k' c = ground (
  arith,
  listed-add_all vs (header_add h k v) k k' c,
  listed-header_add h k v k' c,
  append_step (listed h k') v vs,
)

listed-copy_header :
    (src dst : Header) (k : Bytes)
    → IsCanonical src
    → listed (copy_header dst src) k ≡ listed dst k ++ listed src k
unfolding copy_header values
listed-copy_header [] dst k c = sym (append_nil (listed dst k))
listed-copy_header ((k', vs) ∷ src) dst k c =
    let ih = listed-copy_header src (add_all dst k' vs) k c.2 in
    elim (Bool-cases (bytes_eq k' k)) [
      | inl e ↦
          let none_left : listed src k ≡ [] =
            ap (λ (x : Bytes). listed src x) (sym ((bytes_eq_iff k' k).0 e)) ∙ ap all_values c.1 in
          ground (
            arith,
            ih,
            listed-add_all vs dst k' k c.0,
            e,
            none_left,
            append_nil (listed dst k ++ vs),
          )
      | inr e ↦ ground (arith, ih, listed-add_all vs dst k' k c.0, e)
    ]

-- A copy of a request's headers reads as the headers do.
pub get-copy_header :
    (h : Header) (k : Bytes) → IsCanonical h → header_get (copy_header [] h) k ≡ header_get h k
unfolding header_get values
get-copy_header h k c =
    let k' = canonical k in
    first_lem (values (copy_header [] h) k')
    ∙ ap (λ (l : List Bytes). first (some l)) (listed-copy_header h [] k' c)
    ∙ sym (first_lem (values h k'))
