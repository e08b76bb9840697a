-- ===== src/Router/Static/Insert.antt =====
-- whttp/router.go: what `insert` changes in a tree of static routes.
use wgo.Common.{
  ℕ, ◌≡◌, ◌≢◌, refl, sym, ap, ◌∙◌, Bool, true, Option, none, some, [], ◌∷◌, Bytes, ◌==◌, ◌&&◌,
  if◌then◌else◌, arith, Bool-cases, inl, inr, bytes_eq, eq_of_==, ne_of_==,
}
use wgo.Router.Methods.{Verb, new_table, verb_of, verb_eq, get_verb-set_verb, get_verb-new_table}
use wgo.Router.Node.{
  NodeInfo, RouteNode, node, Children, nil, cons, info, first_byte, new_node, add_child,
  add_handler, add_options, find_handler,
}
use wgo.Router.Insert.{Call, register, leaf}
use wgo.Router.Prefix.{
  bytes_eq_nil, bytes_eq_first, strip, strip_self, strip_nil, strip_ne, bytes_eq-strip,
  bytes_eq-strip-none,
}
use wgo.Router.Static.{locate, locate_child, locate-strip, locate-strip-none}

module _ {F O : Type 0} where
  -- The handler of a located node for a method.
  abbrev pub handler_of : Option (RouteNode F O) → Bytes → Option F
  handler_of none method = none
  handler_of (some c) method = find_handler (info c) method

module _ {F O : Type 0} (method : Bytes) where
  -- The handler below a node, from what is left of the path behind the node's prefix.
  abbrev pub below : NodeInfo F O → Children F O → Option Bytes → Option F
  below i cs none = none
  below i cs (some []) = find_handler i method
  below i cs (some (b ∷ bs)) = handler_of (locate_child cs (b ∷ bs)) method

  pub handler_of-node :
      (i : NodeInfo F O) (cs : Children F O) (q : Bytes)
      → handler_of (locate (node i cs) q) method ≡ below i cs (strip i.prefix q)
  handler_of-node i cs q = go (strip i.prefix q) refl
    where
      go :
          (r : Option Bytes)
          → strip i.prefix q ≡ r
          → handler_of (locate (node i cs) q) method ≡ below i cs r
      go none e = rw (locate-strip-none i cs q e) refl
      go (some []) e = rw (locate-strip i cs q [] e) refl
      go (some (b ∷ bs)) e = rw (locate-strip i cs q (b ∷ bs) e) refl

  pub handler_of-locate_child :
      (c : RouteNode F O) (cs : Children F O) (b : ℕ) (bs : Bytes)
      → handler_of (locate_child (cons c cs) (b ∷ bs)) method ≡ (
          if (info c).label == b
          then handler_of (locate c (b ∷ bs)) method
          else handler_of (locate_child cs (b ∷ bs)) method)
  unfolding locate_child
  handler_of-locate_child c cs b bs = ground arith

  pub locate_child-nil : (s : Bytes) → locate_child {F = F} {O = O} nil s ≡ none
  unfolding locate_child
  locate_child-nil s = refl

  -- The child that a split makes of a node answers as the node did behind the cut.
  pub handler_of-moved :
      (i : NodeInfo F O) (cs : Children F O) (d q : Bytes)
      → handler_of
          (locate (new_node i.kind d cs i.method_handler i.method_options i.ppath i.pnames) q)
          method
        ≡ below i cs (strip d q)
  unfolding new_node find_handler
  handler_of-moved i cs d q = handler_of-node _ cs q ∙ go (strip d q)
    where
      go :
          (r : Option Bytes)
          → below (record i { label = first_byte d; prefix = d }) cs r ≡ below i cs r
      go none = refl
      go (some []) = refl
      go (some (b ∷ bs)) = refl

module _ {F O : Type 0} (call : Call F O) (h : F) (method : Bytes) (v w : Verb)
    (handled : call.handler ≡ some h) (inserted : verb_of call.method ≡ some v)
    (asked : verb_of method ≡ some w) where
  -- The handler after the call, where `same` says that the path is the call's.
  abbrev pub updated : Bool → Option F → Option F
  updated same old = if same && verb_eq v w then some h else old

  pub find_handler-register :
      (i : NodeInfo F O)
      → find_handler (register call i) method ≡ updated true (find_handler i method)
  unfolding find_handler register add_handler add_options
  find_handler-register i =
      rw (handled, inserted, asked) (get_verb-set_verb v w (some h) i.method_handler)

  fresh_none : (i : NodeInfo F O) → i.method_handler ≡ new_table → find_handler i method ≡ none
  unfolding find_handler
  fresh_none i fresh = rw fresh (get_verb-new_table (verb_of method))

  find_handler-register_new :
      (i : NodeInfo F O)
      → i.method_handler ≡ new_table
      → find_handler (register call i) method ≡ updated true none
  find_handler-register_new i fresh =
      find_handler-register i ∙ ap (updated true) (fresh_none i fresh)

  pub handler_of-leaf :
      (s q : Bytes) → handler_of (locate (leaf call s) q) method ≡ updated (bytes_eq s q) none
  unfolding leaf new_node register add_handler add_options bytes_eq locate_child
  handler_of-leaf s q = handler_of-node method _ nil q ∙ go (strip s q) refl
    where
      go :
          (r : Option Bytes)
          → strip s q ≡ r
          → below method
              (register call
                (info (new_node call.kind s nil new_table new_table call.ppath call.pnames)))
              nil
              r
            ≡ updated (bytes_eq s q) none
      go none e = rw (bytes_eq-strip-none s s q [] (strip_self s) e) refl
      go (some []) e = rw (bytes_eq-strip s s q [] [] (strip_self s) e) (
          find_handler-register_new
            (info (new_node call.kind s nil new_table new_table call.ppath call.pnames)) refl)
      go (some (b ∷ bs)) e = rw (bytes_eq-strip s s q [] (b ∷ bs) (strip_self s) e) refl

  pub label-leaf : (s : Bytes) → (info (leaf call s)).label ≡ first_byte s
  unfolding leaf new_node register add_handler add_options
  label-leaf s = refl

  label-moved :
      (i : NodeInfo F O) (cs : Children F O) (d : Bytes)
      → (info (new_node i.kind d cs i.method_handler i.method_options i.ppath i.pnames)).label
        ≡ first_byte d
  unfolding new_node
  label-moved i cs d = refl

  -- The answers of the two children behind the cut of a split.
  split_children :
      (i : NodeInfo F O) (cs : Children F O) (d s : Bytes) (b : ℕ) (bs : Bytes)
      (c e : RouteNode F O)
      → d ≢ []
      → s ≢ []
      → first_byte d ≢ first_byte s
      → (info c).label ≡ first_byte d
      → (info e).label ≡ first_byte s
      → handler_of (locate c (b ∷ bs)) method ≡ below method i cs (strip d (b ∷ bs))
      → handler_of (locate e (b ∷ bs)) method ≡ updated (bytes_eq s (b ∷ bs)) none
      → handler_of (locate_child (cons c (cons e nil)) (b ∷ bs)) method
        ≡ updated (bytes_eq s (b ∷ bs)) (below method i cs (strip d (b ∷ bs)))
  split_children i cs d s b bs c e hd hs apart lc le ac ae =
      handler_of-locate_child method c (cons e nil) b bs
      ∙ (rw lc (elim (Bool-cases (first_byte d == b)) [
        | inl hit ↦
            let other : first_byte s ≢ b = λ x. apart (eq_of_== _ _ hit ∙ sym x) in
            rw (hit, bytes_eq_first s b bs hs other) ac
        | inr miss ↦
            rw (miss, strip_ne d b bs hd (ne_of_== _ _ miss))
              (handler_of-locate_child method e nil b bs
                ∙ (rw le (elim (Bool-cases (first_byte s == b)) [
                  | inl hit ↦ rw hit ae
                  | inr none_left ↦
                      rw (none_left, bytes_eq_first s b bs hs (ne_of_== _ _ none_left))
                        (rw (locate_child-nil method (b ∷ bs)) refl)
                ])))
      ]))

  -- The answers behind the cut of a split.
  pub split_below :
      (i : NodeInfo F O) (cs : Children F O) (d s : Bytes) (r : Bytes)
      → d ≢ []
      → s ≢ []
      → first_byte d ≢ first_byte s
      → (parent : NodeInfo F O) → parent.method_handler ≡ new_table
      → below method parent
          (add_child
            (add_child nil
              (new_node i.kind d cs i.method_handler i.method_options i.ppath i.pnames))
            (leaf call s))
          (some r)
        ≡ updated (bytes_eq s r) (below method i cs (strip d r))
  unfolding add_child
  split_below i cs d s [] hd hs apart parent fresh =
      rw (strip_nil d hd, bytes_eq_nil s hs) (fresh_none parent fresh)
  split_below i cs d s (b ∷ bs) hd hs apart parent fresh =
      split_children i cs d s b bs _ _ hd hs apart (label-moved i cs d) (label-leaf s)
        (handler_of-moved method i cs d (b ∷ bs)) (handler_of-leaf s (b ∷ bs))

  -- The answers behind the cut where the path ends on it.
  pub split_end_below :
      (i : NodeInfo F O) (cs : Children F O) (d : Bytes) (r : Bytes)
      → d ≢ []
      → (parent : NodeInfo F O) → parent.method_handler ≡ new_table
      → below method
          (register call parent)
          (add_child nil (new_node i.kind d cs i.method_handler i.method_options i.ppath i.pnames))
          (some r)
        ≡ updated (bytes_eq [] r) (below method i cs (strip d r))
  unfolding add_child bytes_eq
  split_end_below i cs d [] hd parent fresh =
      rw (strip_nil d hd) (find_handler-register_new parent fresh)
  split_end_below i cs d (b ∷ bs) hd parent fresh =
      handler_of-locate_child method _ nil b bs
      ∙ (rw (label-moved i cs d) (elim (Bool-cases (first_byte d == b)) [
        | inl hit ↦ rw hit (handler_of-moved method i cs d (b ∷ bs))
        | inr miss ↦
            rw (miss, strip_ne d b bs hd (ne_of_== _ _ miss))
              (rw (locate_child-nil method (b ∷ bs)) refl)
      ]))
