-- ===== src/Proxy/Forward/Removal.antt =====
-- doProxy in whttp/proxy.go: what the removals leave of the request's headers.
use mathlib.Core.Path.{subst}
use wgo.Common.{
  split, ◌≡◌, ◌⊎◌, inl, inr, refl, ap, sym, ◌∙◌, Bool, true, false, ◌&&◌, ◌||◌, List, [], ◌∷◌,
  Bytes, bytes, bytes_eq, bytes_eq_iff, bytes_eq_refl, if◌then◌else◌, arith, Bool-cases,
  Option-cases, All,
}
use wgo.Proxy.Header.{
  is_empty, canonical, header_get, copy_header, get-header_del, get-header_set, get-copy_header,
  IsCanonical,
}
use wgo.Proxy.Forward.{
  trim_space, Shared, out, copy_and_del, set_out, del_listed, strip_connection, strip_one,
  strip_hop,
}

abbrev pub sent : Shared → Bytes → Bytes
sent s k = header_get (out s) k

pub sent-set_out :
    (s : Shared) (k v k' : Bytes)
    → sent (set_out s k v) k' ≡ (if bytes_eq (canonical k) (canonical k') then v else sent s k')
unfolding set_out
sent-set_out s k v k' = elim (Option-cases s.copied) [
  | inl e ↦ rw e (get-header_set s.original k k' v)
  | inr (h, e) ↦ rw e (get-header_set h k k' v)
]

sent-copy_and_del :
    (s : Shared) (f k : Bytes)
    → IsCanonical s.original
    → sent (copy_and_del s f) k ≡ (if bytes_eq (canonical f) (canonical k) then [] else sent s k)
unfolding copy_and_del
sent-copy_and_del s f k c = elim (Option-cases s.copied) [
  | inl e ↦ rw e (
      ground
        (arith, get-header_del (copy_header [] s.original) f k, get-copy_header s.original k c))
  | inr (h, e) ↦ rw e (get-header_del h f k)
]

original-copy_and_del : (s : Shared) (f : Bytes) → (copy_and_del s f).original ≡ s.original
unfolding copy_and_del
original-copy_and_del s f = elim (Option-cases s.copied) [
  | inl e ↦ rw e refl
  | inr (h, e) ↦ rw e refl
]

-- What the first value of a hop-by-hop header `h` may be: none or empty, or trailers for Te.
abbrev pub Gone : Bytes → Bytes → Type 0
Gone h v = (v ≡ []) ⊎ ((h ≡ bytes "Te") × (v ≡ bytes "trailers"))

-- A removal keeps the names canonical, and empties a header or leaves it.
pub record Removal (s t : Shared) : Type 0 where
  pub same_original : t.original ≡ s.original
  pub keeps : (k : Bytes) → (sent t k ≡ []) ⊎ (sent t k ≡ sent s k)

Removal-refl : (s : Shared) → Removal s s
Removal-refl s = record { same_original = refl; keeps = λ k. inr refl }

Removal-trans : (s t u : Shared) → Removal s t → Removal t u → Removal s u
Removal-trans s t u p q = record {
  same_original = q.same_original ∙ p.same_original;
  keeps = λ k. elim (q.keeps k) [
    | inl e ↦ inl e
    | inr e ↦ elim (p.keeps k) [ inl e' ↦ inl (e ∙ e') | inr e' ↦ inr (e ∙ e') ]
  ];
}

copy_and_del-Removal :
    (s : Shared) (f : Bytes) → IsCanonical s.original → Removal s (copy_and_del s f)
copy_and_del-Removal s f c = record {
  same_original = original-copy_and_del s f;
  keeps = λ k. elim (Bool-cases (bytes_eq (canonical f) (canonical k))) [
    | inl e ↦ inl (rw (sent-copy_and_del s f k c, e) refl)
    | inr e ↦ inr (rw (sent-copy_and_del s f k c, e) refl)
  ];
}

if-Removal : (s t : Shared) (b : Bool) → Removal s t → Removal s (if b then s else t)
if-Removal s t true p = Removal-refl s
if-Removal s t false p = p

del_listed-Removal :
    (fs : List Bytes) (s : Shared) → IsCanonical s.original → Removal s (del_listed s fs)
unfolding del_listed
del_listed-Removal [] s c = Removal-refl s
del_listed-Removal (f ∷ fs) s c =
    let name = trim_space f in
    let t = if is_empty name then s else copy_and_del s name in
    let p : Removal s t = if-Removal s _ (is_empty name) (copy_and_del-Removal s name c) in
    Removal-trans s t _ p (del_listed-Removal fs t (subst IsCanonical (sym p.same_original) c))

pub strip_connection-Removal :
    (s : Shared) → IsCanonical s.original → Removal s (strip_connection s)
unfolding strip_connection
strip_connection-Removal s c =
    if-Removal s _ (is_empty (sent s (bytes "Connection")))
      (del_listed-Removal (split b',' (sent s (bytes "Connection"))) s c)

strip_one-Removal : (s : Shared) (h : Bytes) → IsCanonical s.original → Removal s (strip_one s h)
unfolding strip_one
strip_one-Removal s h c = if-Removal s _ _ (copy_and_del-Removal s h c)

strip_hop-Removal :
    (hs : List Bytes) (s : Shared) → IsCanonical s.original → Removal s (strip_hop s hs)
unfolding strip_hop
strip_hop-Removal [] s c = Removal-refl s
strip_hop-Removal (h ∷ hs) s c =
    let p = strip_one-Removal s h c in
    Removal-trans s (strip_one s h) _ p
      (strip_hop-Removal hs (strip_one s h) (subst IsCanonical (sym p.same_original) c))

Gone-Removal : (h : Bytes) (s t : Shared) → Removal s t → Gone h (sent s h) → Gone h (sent t h)
Gone-Removal h s t p g = elim (p.keeps h) [
  | inl e ↦ inl e
  | inr e ↦ elim g [ inl z ↦ inl (e ∙ z) | inr z ↦ inr (z.0, e ∙ z.1) ]
]

is_empty-nil : (v : Bytes) → is_empty v ≡ true → v ≡ []
is_empty-nil [] h = refl
is_empty-nil (b ∷ bs) h = cc h

kept-Gone :
    (h v : Bytes)
    → (is_empty v || bytes_eq h (bytes "Te") && bytes_eq v (bytes "trailers")) ≡ true
    → Gone h v
kept-Gone h [] e = inl refl
kept-Gone h (b ∷ bs) e = elim (Bool-cases (bytes_eq h (bytes "Te"))) [
  | inl te ↦ inr (
    (bytes_eq_iff h (bytes "Te")).0 te,
    (bytes_eq_iff (b ∷ bs) (bytes "trailers")).0 (ground (arith, te, e)),
  )
  | inr other ↦ cc (ap (λ (x : Bool). x && bytes_eq (b ∷ bs) (bytes "trailers")) other, e)
]

strip_one-Gone : (s : Shared) (h : Bytes) → IsCanonical s.original → Gone h (sent (strip_one s h) h)
unfolding strip_one
strip_one-Gone s h c =
    elim (Bool-cases
      (is_empty (sent s h) || bytes_eq h (bytes "Te") && bytes_eq (sent s h) (bytes "trailers"))) [
        | inl e ↦ rw e (kept-Gone h (sent s h) e)
        | inr e ↦ rw e (inl (rw (sent-copy_and_del s h h c, bytes_eq_refl (canonical h)) refl))
      ]

pub strip_hop-Gone :
    (hs : List Bytes) (s : Shared)
    → IsCanonical s.original
    → All (λ h. Gone h (sent (strip_hop s hs) h)) hs
unfolding strip_hop
strip_hop-Gone [] s c = tt
strip_hop-Gone (h ∷ hs) s c =
    let c' = subst IsCanonical (sym (strip_one-Removal s h c).same_original) c in
    (
      Gone-Removal h (strip_one s h) _ (strip_hop-Removal hs (strip_one s h) c')
          (strip_one-Gone s h c),
      strip_hop-Gone hs (strip_one s h) c',
    )
