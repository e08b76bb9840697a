-- ===== src/Proxy/Answer/Copied.antt =====
-- doProxy in whttp/proxy.go: which values of the backend's headers reach the client.
use wgo.Common.{
  true, bytes, All, ◌==◌, ℕ, ◌||◌, refl, ◌∙◌, sym, ap, bytes_eq_iff, inr, inl, false, Bool-cases,
  Bool, ◌≡◌, Option, none, some, List, [], ◌∷◌, ◌++◌, Bytes, bytes_eq, bytes_eq_refl, if◌then◌else◌,
  arith, append_step,
}
use wgo.Proxy.Header.{
  get-header_del, header_get, header_del, values-remove, IsCanonical, remove, Header, canonical,
  values, all_values, put, header_set, header_add, add_all, values-put,
}
use wgo.Proxy.Answer.{
  del_connection, set_cors, answer_headers, upgraded, header_del, written, skip_headers,
  hop_headers, del_each, copy_fast_header, Written, set_each, is_added,
}

abbrev pub last : Bytes → List Bytes → Bytes
last v [] = v
last v (w ∷ ws) = last w ws

-- The values of a name after the copy, from those before it and those copied.
abbrev pub copied : Bytes → Option (List Bytes) → Option (List Bytes) → Option (List Bytes)
copied k old none = old
copied k old (some []) = old
copied k old (some (v ∷ vs)) =
    if is_added k then some (all_values old ++ v ∷ vs) else some (last v vs ∷ [])

values-add_all :
    (vs : List Bytes) (v : Bytes) (dst : Header) (k k' : Bytes)
    → canonical k ≡ k
    → values (add_all dst k (v ∷ vs)) k'
      ≡ (if bytes_eq k k' then some (all_values (values dst k) ++ v ∷ vs) else values dst k')
unfolding add_all header_add
values-add_all [] v dst k k' c = rw c (values-put dst k k' (all_values (values dst k) ++ v ∷ []))
values-add_all (w ∷ ws) v dst k k' c =
    let old = all_values (values dst k) ++ v ∷ [] in
    rw c (
      ground (
        arith,
        values-add_all ws w (put dst k old) k k' c,
        values-put dst k k' old,
        values-put dst k k old,
        bytes_eq_refl k,
        append_step (all_values (values dst k)) v (w ∷ ws),
      ))

values-set_each :
    (vs : List Bytes) (v : Bytes) (dst : Header) (k k' : Bytes)
    → canonical k ≡ k
    → values (set_each dst k (v ∷ vs)) k'
      ≡ (if bytes_eq k k' then some (last v vs ∷ []) else values dst k')
unfolding set_each header_set
values-set_each [] v dst k k' c = rw c (values-put dst k k' (v ∷ []))
values-set_each (w ∷ ws) v dst k k' c =
    rw c (
      ground
        (arith, values-set_each ws w (put dst k (v ∷ [])) k k' c, values-put dst k k' (v ∷ [])))

values-copy_one :
    (vs : List Bytes) (dst : Header) (k k' : Bytes)
    → canonical k ≡ k
    → values (if is_added k then add_all dst k vs else set_each dst k vs) k'
      ≡ (if bytes_eq k k' then copied k (values dst k) (some vs) else values dst k')
unfolding add_all set_each
values-copy_one [] dst k k' c = elim (Bool-cases (bytes_eq k k')) [
  | inl e ↦ ground (arith, e, ap (values dst) ((bytes_eq_iff k k').0 e))
  | inr e ↦ ground (arith, e)
]
values-copy_one (v ∷ vs) dst k k' c =
    ground (arith, values-add_all vs v dst k k' c, values-set_each vs v dst k k' c)

pub values-copy_fast_header :
    (src dst : Header) (k : Bytes)
    → IsCanonical src
    → values (copy_fast_header dst src) k ≡ copied k (values dst k) (values src k)
unfolding copy_fast_header values
values-copy_fast_header [] dst k c = refl
values-copy_fast_header ((k', vs) ∷ src) dst k c =
    let one = values-copy_one vs dst k' k c.0 in
    let ih =
      values-copy_fast_header src (if is_added k' then add_all dst k' vs else set_each dst k' vs) k
        c.2 in
    elim (Bool-cases (bytes_eq k' k)) [
      | inl e ↦
          let same = (bytes_eq_iff k' k).0 e in
          let none_left : values src k ≡ none = ap (values src) (sym same) ∙ c.1 in
          ih
          ∙ ap (copied k _) none_left
          ∙ one
          ∙ rw e (ap (λ (x : Bytes). copied x (values dst x) (some vs)) same)
      | inr e ↦
          let kept : values (if is_added k' then add_all dst k' vs else set_each dst k' vs) k
              ≡ values dst k =
            one
            ∙ ap (λ (b : Bool). if b then copied k' (values dst k') (some vs) else values dst k)
                e in
          ih
          ∙ ap (λ (o : Option (List Bytes)). copied k o (values src k)) kept
          ∙ ap (λ (b : Bool). copied k (values dst k) (if b then some vs else values src k)) (sym e)
    ]

IsCanonical-remove : (h : Header) (k : Bytes) → IsCanonical h → IsCanonical (remove h k)
unfolding remove
IsCanonical-remove [] k c = tt
IsCanonical-remove ((k', vs) ∷ rest) k c = elim (Bool-cases (bytes_eq k' k)) [
  | inl e ↦ rw e (IsCanonical-remove rest k c.2)
  | inr e ↦ rw e (c.0, ground (arith, values-remove rest k k', c.1), IsCanonical-remove rest k c.2)
]

-- Whether a name is among the ones given.
abbrev pub among : List Bytes → Bytes → Bool
among [] k = false
among (n ∷ ns) k = bytes_eq n k || among ns k

IsCanonical-del_each : (ns : List Bytes) (h : Header) → IsCanonical h → IsCanonical (del_each h ns)
unfolding del_each header_del
IsCanonical-del_each [] h c = c
IsCanonical-del_each (n ∷ ns) h c = IsCanonical-del_each ns _ (IsCanonical-remove h (canonical n) c)

values-del_each :
    (ns : List Bytes) (h : Header) (k : Bytes)
    → All (λ n. canonical n ≡ n) ns
    → values (del_each h ns) k ≡ (if among ns k then none else values h k)
unfolding del_each header_del
values-del_each [] h k c = refl
values-del_each (n ∷ ns) h k c =
    rw c.0 (ground (arith, values-del_each ns (remove h n) k c.1, values-remove h n k))

abbrev pub stripped_names : List Bytes
stripped_names = hop_headers ++ skip_headers

abbrev pub headers_of : Written → Header
headers_of (written s h) = h
headers_of (upgraded h) = h

or_true : (b : Bool) → (b || true) ≡ true
or_true true = refl
or_true false = refl

del_each-append : (a b : List Bytes) (h : Header) → del_each (del_each h a) b ≡ del_each h (a ++ b)
unfolding del_each
del_each-append [] b h = refl
del_each-append (n ∷ a) b h = del_each-append a b (header_del h n)

stripped_length :
    (k : Bytes) → among (bytes "Content-Length" ∷ stripped_names) k ≡ among stripped_names k
stripped_length k = elim (Bool-cases (bytes_eq (bytes "Content-Length") k)) [
  | inl e ↦ rw e (simp or_true refl)
  | inr e ↦ rw e refl
]

canonical_names : All (λ n. canonical n ≡ n) (bytes "Content-Length" ∷ stripped_names)
unfolding canonical
canonical_names = (
  refl,
  (
    refl,
    (refl, (refl, (refl, (refl, (refl, (refl, (refl, (refl, (refl, (refl, (refl, tt))))))))))),
  ),
)

values-stripped :
    (res : Header) (k : Bytes)
    → values
        (del_each (del_each (header_del res (bytes "Content-Length")) hop_headers) skip_headers)
        k
      ≡ (if among stripped_names k then none else values res k)
unfolding del_each
values-stripped res k =
    ap (λ (h : Header). values h k)
      (del_each-append hop_headers skip_headers (header_del res (bytes "Content-Length")))
    ∙ values-del_each (bytes "Content-Length" ∷ stripped_names) res k canonical_names
    ∙ ap (λ (b : Bool). if b then none else values res k) (stripped_length k)

-- For a response that is no answer to OPTIONS and switches no protocol, when the request has no
-- Origin and the response no Connection: its headers but for the hop-by-hop ones, Date, Server and
-- Content-Length take the place of the client's, where of several values of a name the last one
-- only is left, except that those of Set-Cookie and Cache-Control are all added.
pub answer_headers-copied :
    (method : Bytes) (out dst res : Header) (status : ℕ) (k : Bytes)
    → IsCanonical res
    → bytes_eq method (bytes "OPTIONS") ≡ false
    → (status == 101) ≡ false
    → header_get out (bytes "Origin") ≡ []
    → header_get res (bytes "Connection") ≡ []
    → values (headers_of (answer_headers method out status dst res)) k
      ≡ copied k (values dst k) (if among stripped_names k then none else values res k)
unfolding answer_headers set_cors del_connection del_each
answer_headers-copied method out dst res status k c m st origin conn =
    let h = header_del res (bytes "Content-Length") in
    let quiet : header_get h (bytes "Connection") ≡ [] =
      ground (arith, get-header_del res (bytes "Content-Length") (bytes "Connection"), conn) in
    let canon : IsCanonical (del_each (del_each h hop_headers) skip_headers) =
      IsCanonical-del_each skip_headers _ (
        IsCanonical-del_each hop_headers h
          (IsCanonical-del_each (bytes "Content-Length" ∷ []) res c)) in
    rw (origin, m, st, quiet)
      (values-copy_fast_header (del_each (del_each h hop_headers) skip_headers) dst k canon
        ∙ ap (copied k (values dst k)) (values-stripped res k))
