-- ===== src/Router/Node.antt =====
-- whttp/router.go: nodes of the radix tree. The field `parent` is written by `newNode` and never
-- read, so a node here owns its children and nothing above it. `Func` and `Opts`, which `Find`
-- writes just before it returns the node, are results of `Find`.
use wgo.Common.{
  ℕ, suc, Bool, true, false, ◌&&◌, Option, none, some, List, [], ◌∷◌, Bytes, ◌==◌, if◌then◌else◌,
}
use wgo.Router.Methods.{MethodTable, verb_of, set_verb, get_verb}

-- Static segment, parameter, wildcard.
pub data Kind : Type 0 where
  skind pkind akind : Kind

unfoldable pub kind_eq : Kind → Kind → Bool
kind_eq skind skind = true
kind_eq pkind pkind = true
kind_eq akind akind = true
kind_eq _ _ = false

pub record NodeInfo (F O : Type 0) : Type 0 where
  pub kind : Kind
  pub label : ℕ
  pub prefix : Bytes
  pub ppath : Bytes
  pub pnames : List Bytes
  pub method_handler : MethodTable F
  pub method_options : MethodTable O

mutual
  pub data RouteNode (F O : Type 0) : Type 0 where
    node : NodeInfo F O → Children F O → RouteNode F O

  pub data Children (F O : Type 0) : Type 0 where
    nil : Children F O
    cons : RouteNode F O → Children F O → Children F O

-- `s[0]`; every caller's text is non-empty, where the source would panic.
abbrev pub first_byte : Bytes → ℕ
first_byte [] = 0
first_byte (b ∷ bs) = b

-- The length of the longest common prefix, by the loop `for ; l < max && search[l] == prefix[l]`.
unfoldable pub lcp : Bytes → Bytes → ℕ
lcp [] bs = 0
lcp (a ∷ s) [] = 0
lcp (a ∷ s) (b ∷ bs) = if a == b then suc (lcp s bs) else 0

module _ {F O : Type 0} where
  abbrev pub info : RouteNode F O → NodeInfo F O
  info (node i cs) = i

  abbrev pub children : RouteNode F O → Children F O
  children (node i cs) = cs

  unfoldable pub new_node :
      Kind
      → Bytes
      → Children F O
      → MethodTable F
      → MethodTable O
      → Bytes
      → List Bytes
      → RouteNode F O
  new_node t pre c mh mopts ppath pnames =
      node
        (record {
          kind = t;
          label = first_byte pre;
          prefix = pre;
          ppath = ppath;
          pnames = pnames;
          method_handler = mh;
          method_options = mopts;
        })
        c

  -- `append(n.children, c)`
  unfoldable pub add_child : Children F O → RouteNode F O → Children F O
  add_child nil c = cons c nil
  add_child (cons d cs) c = cons d (add_child cs c)

  unfoldable pub find_child : Children F O → ℕ → Kind → Option (RouteNode F O)
  find_child nil l t = none
  find_child (cons c cs) l t =
      if (info c).label == l && kind_eq (info c).kind t then some c else find_child cs l t

  unfoldable pub find_child_by_kind : Children F O → Kind → Option (RouteNode F O)
  find_child_by_kind nil t = none
  find_child_by_kind (cons c cs) t =
      if kind_eq (info c).kind t then some c else find_child_by_kind cs t

  unfoldable pub add_handler : Bytes → Option F → NodeInfo F O → NodeInfo F O
  add_handler method h n = record n {
    method_handler = set_verb (verb_of method) h n.method_handler;
  }

  unfoldable pub add_options : Bytes → Option O → NodeInfo F O → NodeInfo F O
  add_options method o n = record n {
    method_options = set_verb (verb_of method) o n.method_options;
  }

  unfoldable pub find_handler : NodeInfo F O → Bytes → Option F
  find_handler n method = get_verb (verb_of method) n.method_handler

  unfoldable pub find_options : NodeInfo F O → Bytes → Option O
  find_options n method = get_verb (verb_of method) n.method_options
