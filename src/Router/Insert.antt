-- ===== src/Router/Insert.antt =====
-- whttp/router.go: `Add` cuts a path at its parameters and makes the calls of `insert`, which
-- grows the radix tree.
use wgo.Common.{
  ℕ, true, false, Option, none, some, List, [], ◌∷◌, ◌++◌, Bytes, bytes, ◌==◌, ltb, if◌then◌else◌,
  length, take, drop,
}
use wgo.Router.Methods.{new_table}
use wgo.Router.Node.{
  Kind, skind, pkind, akind, NodeInfo, RouteNode, node, Children, nil, cons, first_byte, lcp, info,
  new_node, add_child, add_handler, add_options,
}

-- The arguments of one call of `insert`.
pub record Call (F O : Type 0) : Type 0 where
  pub method : Bytes
  pub path : Bytes
  pub opts : Option O
  pub handler : Option F
  pub kind : Kind
  pub ppath : Bytes
  pub pnames : List Bytes

module _ {F O : Type 0} where
  -- The writes that each branch makes on the node it ends on: the handler and the options for
  -- the method, the pristine path and the parameter names.
  unfoldable pub register : Call F O → NodeInfo F O → NodeInfo F O
  register call i =
      record (add_options call.method call.opts (add_handler call.method call.handler i)) {
        ppath = call.ppath;
        pnames = call.pnames;
      }

  -- A child made by `newNode`, with the handler and the options added.
  unfoldable pub leaf : Call F O → Bytes → RouteNode F O
  leaf call search =
      node
        (register call
          (info (new_node call.kind search nil new_table new_table call.ppath call.pnames)))
        nil

  -- "At root node"
  unfoldable pub at_root : Call F O → NodeInfo F O → Children F O → Bytes → RouteNode F O
  at_root call i cs search =
      let i' = record i { label = first_byte search; prefix = search } in
      elim call.handler [
        | none ↦ node i' cs
        | some h ↦ node (register call (record i' { kind = call.kind })) cs
      ]

  -- "Split node": the old contents move to a child, `l` bytes stay.
  unfoldable pub split_node : Call F O → NodeInfo F O → Children F O → Bytes → ℕ → RouteNode F O
  split_node call i cs search l =
      let moved =
        new_node i.kind (drop l i.prefix) cs i.method_handler i.method_options i.ppath i.pnames in
      let parent : NodeInfo F O = record {
        kind = skind;
        label = first_byte i.prefix;
        prefix = take l i.prefix;
        ppath = [];
        pnames = [];
        method_handler = new_table;
        method_options = new_table;
      } in
      if l == length search
      then node (register call (record parent { kind = call.kind })) (add_child nil moved)
      else node parent (add_child (add_child nil moved) (leaf call (drop l search)))

  -- "Node already exists"
  unfoldable pub at_node : Call F O → NodeInfo F O → Children F O → RouteNode F O
  at_node call i cs = elim call.handler [ none ↦ node i cs | some h ↦ node (register call i) cs ]

  unfoldable mutual
    -- The loop of `insert`: one round at each node on the way down.
    pub insert_node : Call F O → RouteNode F O → Bytes → RouteNode F O
    insert_node call (node i cs) search =
        let l = lcp search i.prefix in
        elim (l == 0) [
          | true ↦ at_root call i cs search
          | false ↦ elim (ltb l (length i.prefix)) [
            | true ↦ split_node call i cs search l
            | false ↦ elim (ltb l (length search)) [
              | true ↦ elim (insert_child call cs (drop l search)) [
                | some cs' ↦ node i cs'
                | none ↦ node i (add_child cs (leaf call (drop l search)))
              ]
              | false ↦ at_node call i cs
            ]
          ]
        ]

    -- `findChildWithLabel` and the round at that child; `none` if there is no such child.
    pub insert_child : Call F O → Children F O → Bytes → Option (Children F O)
    insert_child call nil search = none
    insert_child call (cons c cs) search = elim ((info c).label == first_byte search) [
      | true ↦ some (cons (insert_node call c search) cs)
      | false ↦ elim (insert_child call cs search) [ none ↦ none | some cs' ↦ some (cons c cs') ]
    ]

-- `"/" + path`, unless the path begins with a slash
abbrev pub slashed : Bytes → Bytes
slashed path = if first_byte path == b'/' then path else b'/' ∷ path

pub record Router (F O : Type 0) : Type 0 where
  pub tree : RouteNode F O
  pub depth : ℕ

module _ {F O : Type 0} where
  -- The fields `tree` and `depth` of `NewRouter`.
  unfoldable pub new_router : Router F O
  new_router = record {
    tree =
        node
          (record {
            kind = skind;
            label = 0;
            prefix = [];
            ppath = [];
            pnames = [];
            method_handler = new_table;
            method_options = new_table;
          })
          nil;
    depth = 0;
  }

  unfoldable pub insert : Router F O → Call F O → Router F O
  insert r call = record {
    tree = insert_node call r.tree call.path;
    depth = if ltb r.depth 1 then length call.pnames else r.depth;
  }

  -- `i` stands behind `done`, which has lost the names of its parameters. After a parameter the
  -- loop's `i++` steps over the slash that ends the name.
  unfoldable mutual
    pub calls_from :
        Bytes → Option O → Option F → Bytes → List Bytes → Bytes → Bytes → List (Call F O)
    calls_from method opts h ppath pnames done [] =
        record {
          method = method;
          path = done;
          opts = opts;
          handler = h;
          kind = skind;
          ppath = ppath;
          pnames = pnames;
        }
        ∷ []
    calls_from method opts h ppath pnames done (c ∷ rest) =
        let before : Call F O = record {
          method = method;
          path = done;
          opts = none;
          handler = none;
          kind = skind;
          ppath = [];
          pnames = [];
        } in
        elim (c == b':') [
          | true ↦ before ∷ calls_in_name method opts h ppath pnames done [] rest
          | false ↦ elim (c == b'*') [
            | true ↦
                before
                ∷ record {
                  method = method;
                  path = done ++ c ∷ [];
                  opts = opts;
                  handler = h;
                  kind = akind;
                  ppath = ppath;
                  pnames = pnames ++ bytes "_*" ∷ [];
                }
                ∷ []
            | false ↦ calls_from method opts h ppath pnames (done ++ c ∷ []) rest
          ]
        ]

    -- Inside the name of a parameter, of which `name` has been read.
    pub calls_in_name :
        Bytes → Option O → Option F → Bytes → List Bytes → Bytes → Bytes → Bytes → List (Call F O)
    calls_in_name method opts h ppath pnames done name [] =
        record {
          method = method;
          path = done ++ b':' ∷ [];
          opts = opts;
          handler = h;
          kind = pkind;
          ppath = ppath;
          pnames = pnames ++ name ∷ [];
        }
        ∷ []
    calls_in_name method opts h ppath pnames done name (c ∷ rest) = elim (c == b'/') [
      | true ↦
          record {
            method = method;
            path = done ++ b':' ∷ [];
            opts = none;
            handler = none;
            kind = pkind;
            ppath = ppath;
            pnames = pnames ++ name ∷ [];
          }
          ∷ calls_from method opts h ppath (pnames ++ name ∷ []) (done ++ b':' ∷ b'/' ∷ []) rest
      | false ↦ calls_in_name method opts h ppath pnames done (name ++ c ∷ []) rest
    ]

  unfoldable pub insert_all : Router F O → List (Call F O) → Router F O
  insert_all r [] = r
  insert_all r (call ∷ calls) = insert_all (insert r call) calls

  -- `none` is the panic on an empty path.
  unfoldable pub add : Router F O → Bytes → Bytes → Option O → Option F → Option (Router F O)
  add r method [] opts h = none
  add r method (b ∷ bs) opts h =
      let path = slashed (b ∷ bs) in some (insert_all r (calls_from method opts h path [] [] path))
