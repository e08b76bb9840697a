-- ===== src/Router/Static/Serve.antt =====
-- whttp/router.go: the call of `insert` that `Add` makes for a static path, and the roots of the trees
-- that such calls make.
use wgo.Common.{
  append_step, append_nil, ◌≡◌, ◌≢◌, ◌⊎◌, refl, sym, ap, ◌∙◌, Option, none, some, [], ◌∷◌, ◌++◌,
  Bytes, ◌==◌, ◌&&◌, if◌then◌else◌, arith, eq_of_==, Bool-cases, inl, inr, All, bytes_eq,
}
use mathlib.Core.Path.{subst}
use wgo.Router.Methods.{Verb, verb_of, verb_eq}
use wgo.Router.Node.{skind, RouteNode, info, first_byte, lcp, new_node, add_handler, add_options}
use wgo.Router.Insert.{Call, new_router, insert_node, at_root, register, leaf, calls_from, slashed}
use wgo.Router.Prefix.{strip}
use wgo.Router.Static.{locate, locate_child, IsStatic}
use wgo.Router.Static.Insert.{handler_of, handler_of-leaf}
use wgo.Router.Static.Shape.{IsLabelled, lcp_pos, label-insert_node}
use wgo.Router.Static.Laws.{insert_node_law}
use wgo.Router.Static.Keep.{NoColon, leaf-IsStatic, insert_node-IsStatic}

-- The arguments of one call of `Add`.
pub record Route (F O : Type 0) : Type 0 where
  pub method : Bytes
  pub path : Bytes
  pub opts : Option O
  pub handler : F

-- No parameter and no wildcard.
abbrev pub IsPlain : Bytes → Type 0
IsPlain path = All (λ b. (b ≢ b':') × (b ≢ b'*')) path

pub IsPlain-NoColon : (s : Bytes) → IsPlain s → NoColon s
IsPlain-NoColon [] h = tt
IsPlain-NoColon (b ∷ s) h = (h.0.0, IsPlain-NoColon s h.1)

pub slashed-ne_nil : (p : Bytes) → p ≢ [] → (slashed p ≢ []) × (first_byte (slashed p) ≡ b'/')
slashed-ne_nil [] h = absurd (h refl)
slashed-ne_nil (b ∷ p) h = elim (Bool-cases (b == b'/')) [
  | inl same ↦ rw same (cc, eq_of_== b b'/' same)
  | inr other ↦ rw other (cc, refl)
]

pub empty_none :
    {F : Type 0} (O : Type 0) (method q : Bytes)
    → q ≢ []
    → handler_of (locate (new_router {F = F} {O = O}).tree q) method ≡ none
unfolding locate locate_child strip new_router
empty_none O method [] h = absurd (h refl)
empty_none O method (b ∷ q) h = refl

module _ {F O : Type 0} where
  -- The call of `insert` that `Add` makes for a path without parameters.
  abbrev pub call_of : Bytes → Option O → Option F → Bytes → Bytes → Call F O
  call_of method opts h ppath path = record {
    method = method;
    path = path;
    opts = opts;
    handler = h;
    kind = skind;
    ppath = ppath;
    pnames = [];
  }

  pub calls_from-IsPlain :
      (method : Bytes) (opts : Option O) (h : Option F) (ppath done rest : Bytes)
      → IsPlain rest
      → calls_from method opts h ppath [] done rest
        ≡ call_of method opts h ppath (done ++ rest) ∷ []
  unfolding calls_from
  calls_from-IsPlain method opts h ppath done [] plain = rw (append_nil done) refl
  calls_from-IsPlain method opts h ppath done (c ∷ rest) plain = ground (
    arith,
    calls_from-IsPlain method opts h ppath (done ++ c ∷ []) rest plain.1,
    ap (λ p. call_of method opts h ppath p ∷ []) (append_step done c rest),
  )

  -- The tree is empty, or static with a root that begins with a slash.
  abbrev pub IsRooted : RouteNode F O → Type 0
  IsRooted t =
      (t ≡ new_router.tree) ⊎ (IsStatic t × IsLabelled t × (first_byte (info t).prefix ≡ b'/'))

  first_insert :
      (call : Call F O) (h : F) (s : Bytes)
      → call.handler ≡ some h
      → s ≢ []
      → insert_node call new_router.tree s ≡ leaf call s
  unfolding insert_node new_router lcp at_root leaf register new_node add_handler add_options
  first_insert call h [] handled hs = absurd (hs refl)
  first_insert call h (b ∷ s) handled hs = rw handled refl

  first_prefix-insert_node :
      (call : Call F O) (c : RouteNode F O) (s : Bytes)
      → IsLabelled c
      → lcp s (info c).prefix ≢ 0
      → IsLabelled (insert_node call c s)
      → first_byte (info (insert_node call c s)).prefix ≡ first_byte (info c).prefix
  first_prefix-insert_node call c s lab pos kept =
      sym kept.0 ∙ label-insert_node call c s lab pos ∙ lab.0

  prefix-leaf : (call : Call F O) (s : Bytes) → (info (leaf call s)).prefix ≡ s
  unfolding leaf register new_node add_handler add_options
  prefix-leaf call s = refl

  -- What a call of `insert` for a static path does at a root.
  abbrev pub Inserted : Call F O → F → RouteNode F O → Bytes → Type 0
  Inserted call h t s =
      IsRooted (insert_node call t s)
      × ((method : Bytes) (v w : Verb) (q : Bytes)
          → verb_of call.method ≡ some v
          → verb_of method ≡ some w
          → q ≢ []
          → handler_of (locate (insert_node call t s) q) method
            ≡ (if bytes_eq s q && verb_eq v w then some h else handler_of (locate t q) method))

  insert_node-empty :
      (call : Call F O) (h : F) (s : Bytes)
      → call.handler ≡ some h
      → call.kind ≡ skind
      → NoColon s
      → s ≢ []
      → first_byte s ≡ b'/'
      → Inserted call h new_router.tree s
  insert_node-empty call h s handled static plain hs slash =
      let new = leaf-IsStatic call static s plain hs in
      rw (first_insert call h s handled hs) (
        (
          inr (new.0, new.1, ap first_byte (prefix-leaf call s) ∙ slash),
          λ method v w q inserted asked hq.
              handler_of-leaf call h method v w handled inserted asked s q
              ∙ ap (λ old. if bytes_eq s q && verb_eq v w then some h else old)
                  (sym (empty_none O method q hq)),
        ))

  pub insert_node-IsRooted :
      (call : Call F O) (h : F) (t : RouteNode F O) (s : Bytes)
      → call.handler ≡ some h
      → call.kind ≡ skind
      → NoColon s
      → s ≢ []
      → first_byte s ≡ b'/'
      → IsRooted t
      → Inserted call h t s
  insert_node-IsRooted call h t s handled static plain hs slash (inl e) =
      subst (λ x. Inserted call h x s) (sym e)
        (insert_node-empty call h s handled static plain hs slash)
  insert_node-IsRooted call h t s handled static plain hs slash (inr (st, lab, root)) =
      let pos = lcp_pos s (info t).prefix hs lab.1 (root ∙ sym slash) in
      let kept = insert_node-IsStatic call static t s st lab plain pos in
      (
        inr (kept.0, kept.1, first_prefix-insert_node call t s lab pos kept.1 ∙ root),
        λ method v w q inserted asked hq.
            insert_node_law call h method v w handled inserted asked t s q st pos,
      )
