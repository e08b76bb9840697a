-- ===== src/Router/Methods.antt =====
-- whttp/router.go: the table of a node with a place for each method, and the switches over the
-- method's name. A nil `Func` or `Options` is `none`.
use wgo.Common.{
  ◌≡◌, refl, Bool, true, false, Option, none, some, Bytes, bytes, bytes_eq, bytes_eq_iff,
  if◌then◌else◌, arith,
}

pub data Verb : Type 0 where
  connect delete get head options patch post put trace : Verb

pub record MethodTable (A : Type 0) : Type 0 where
  pub connect_field : Option A
  pub delete_field : Option A
  pub get_field : Option A
  pub head_field : Option A
  pub options_field : Option A
  pub patch_field : Option A
  pub post_field : Option A
  pub put_field : Option A
  pub trace_field : Option A

-- The order of the cases is that of the switches.
unfoldable pub verb_of : Bytes → Option Verb
verb_of method =
    if bytes_eq method (bytes "GET")
    then some get
    else if bytes_eq method (bytes "POST")
    then some post
    else if bytes_eq method (bytes "PUT")
    then some put
    else if bytes_eq method (bytes "DELETE")
    then some delete
    else if bytes_eq method (bytes "PATCH")
    then some patch
    else if bytes_eq method (bytes "OPTIONS")
    then some options
    else if bytes_eq method (bytes "HEAD")
    then some head
    else if bytes_eq method (bytes "CONNECT")
    then some connect
    else if bytes_eq method (bytes "TRACE")
    then some trace
    else none

-- Two methods have one place in the table.
unfoldable pub verb_eq : Verb → Verb → Bool
verb_eq connect connect = true
verb_eq delete delete = true
verb_eq get get = true
verb_eq head head = true
verb_eq options options = true
verb_eq patch patch = true
verb_eq post post = true
verb_eq put put = true
verb_eq trace trace = true
verb_eq _ _ = false

module _ {A : Type 0} where
  -- `new(methodHandler)`
  abbrev pub new_table : MethodTable A
  new_table = record {
    connect_field = none;
    delete_field = none;
    get_field = none;
    head_field = none;
    options_field = none;
    patch_field = none;
    post_field = none;
    put_field = none;
    trace_field = none;
  }

  unfoldable pub set_verb : Option Verb → Option A → MethodTable A → MethodTable A
  set_verb none a t = t
  set_verb (some connect) a t = record t { connect_field = a }
  set_verb (some delete) a t = record t { delete_field = a }
  set_verb (some get) a t = record t { get_field = a }
  set_verb (some head) a t = record t { head_field = a }
  set_verb (some options) a t = record t { options_field = a }
  set_verb (some patch) a t = record t { patch_field = a }
  set_verb (some post) a t = record t { post_field = a }
  set_verb (some put) a t = record t { put_field = a }
  set_verb (some trace) a t = record t { trace_field = a }

  unfoldable pub get_verb : Option Verb → MethodTable A → Option A
  get_verb none t = none
  get_verb (some connect) t = t.connect_field
  get_verb (some delete) t = t.delete_field
  get_verb (some get) t = t.get_field
  get_verb (some head) t = t.head_field
  get_verb (some options) t = t.options_field
  get_verb (some patch) t = t.patch_field
  get_verb (some post) t = t.post_field
  get_verb (some put) t = t.put_field
  get_verb (some trace) t = t.trace_field

  pub get_verb-set_verb :
      (v w : Verb) (a : Option A) (t : MethodTable A)
      → get_verb (some w) (set_verb (some v) a t) ≡ (if verb_eq v w then a else get_verb (some w) t)
  unfolding get_verb set_verb verb_eq
  get_verb-set_verb connect w a t = ground arith
  get_verb-set_verb delete w a t = ground arith
  get_verb-set_verb get w a t = ground arith
  get_verb-set_verb head w a t = ground arith
  get_verb-set_verb options w a t = ground arith
  get_verb-set_verb patch w a t = ground arith
  get_verb-set_verb post w a t = ground arith
  get_verb-set_verb put w a t = ground arith
  get_verb-set_verb trace w a t = ground arith

  pub get_verb-new_table : (v : Option Verb) → get_verb v new_table ≡ none
  unfolding get_verb
  get_verb-new_table none = refl
  get_verb-new_table (some v) = ground arith

unfoldable pub verb_name : Verb → Bytes
verb_name connect = bytes "CONNECT"
verb_name delete = bytes "DELETE"
verb_name get = bytes "GET"
verb_name head = bytes "HEAD"
verb_name options = bytes "OPTIONS"
verb_name patch = bytes "PATCH"
verb_name post = bytes "POST"
verb_name put = bytes "PUT"
verb_name trace = bytes "TRACE"

name_of-verb_of : (m : Bytes) (v : Verb) → verb_of m ≡ some v → verb_name v ≡ m
unfolding verb_of verb_name
name_of-verb_of m v e = ground (
  arith,
  bytes_eq_iff m (bytes "GET"),
  bytes_eq_iff m (bytes "POST"),
  bytes_eq_iff m (bytes "PUT"),
  bytes_eq_iff m (bytes "DELETE"),
  bytes_eq_iff m (bytes "PATCH"),
  bytes_eq_iff m (bytes "OPTIONS"),
  bytes_eq_iff m (bytes "HEAD"),
  bytes_eq_iff m (bytes "CONNECT"),
  bytes_eq_iff m (bytes "TRACE"),
)

verb_eq-name : (v w : Verb) → verb_eq v w ≡ bytes_eq (verb_name v) (verb_name w)
unfolding verb_eq verb_name bytes_eq
verb_eq-name connect w = ground arith
verb_eq-name delete w = ground arith
verb_eq-name get w = ground arith
verb_eq-name head w = ground arith
verb_eq-name options w = ground arith
verb_eq-name patch w = ground arith
verb_eq-name post w = ground arith
verb_eq-name put w = ground arith
verb_eq-name trace w = ground arith

-- Two methods share a place exactly when they are the same text.
pub verb_eq-bytes_eq :
    (m m' : Bytes) (v w : Verb)
    → verb_of m ≡ some v
    → verb_of m' ≡ some w
    → verb_eq v w ≡ bytes_eq m m'
verb_eq-bytes_eq m m' v w e e' =
    rw (← name_of-verb_of m v e, ← name_of-verb_of m' w e') (verb_eq-name v w)
