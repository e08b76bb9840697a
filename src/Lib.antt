-- ===== src/Lib.antt =====
-- wgo: a Go framework for HTTP and RPC servers. This library models the parts of it that compute:
-- the in-memory cache and the middleware over it, the router, the mux and the reverse proxy of the HTTP
-- server, the mux of the RPC server, the jobs and the worker pool, the storage lock, the queries and
-- handlers of REST models, and five files of utilities.
--
-- The parts and where they are:
--  * Cache: cache/bucket.go in Cache/Bucket.antt (bucket.set, get, ttl, del, lookup, entryIdx are
--    set_entry, get_entry, ttl_entry, del_entry, lookup, entry_idx) and cache/cache.go in
--    Cache/Store.antt (Cache.Set, Get, TTL, Del, Clear, ResetStatistics and the counters). The hash of
--    a key is a parameter, the clock an argument of each call. An operation holds its bucket's lock,
--    so one operation is one step; Cache/Runs.antt has the runs. A cache is
--    sound when it has 256 buckets whose slots are filled in their last place only, as every run from
--    NewCache keeps it. Words of 16, 32 and 64 bits wrap
--    around as written; HitRate, a float, is not modelled.
--  * Router: whttp/router.go. Methods.antt has the table of methods, Node.antt the nodes, Insert.antt
--    Add and insert, Find.antt the search as a machine whose steps run between the labels of the
--    source. A step takes one unit of fuel; Static/ shows that on static routes the length of the path
--    and seven more are enough. Walk.antt says, without the search, to which nodes a path's text
--    leads. The field parent, which is never read, is left out.
--  * Mux: whttp/mux.go and the list of routes of whttp/router.go in Mux.antt: Use, Abandon, Add,
--    SetOptions, Exists, BuildRoutes and the dispatch of Serve, which uses the router's Add and Find.
--    ToLower, ToUpper and the proxy wrapper are parameters; a handler is of any type.
--  * Rpc: wrpc/mux.go, Add and the routing of Serve by the method's name, with the chain of Mux.
--  * Storage: storage/storage.go and storage/lock.go. The nodes, caches behind the interface of
--    storage/core, are a record of operations on a state; Hash, the time's decimal form and the
--    reading of a stored time are parameters. Delete starts a goroutine: the deletion waits in the
--    state until run_pending. The receiver is not nil; the tries of Put and GetLock are counted down
--    from 5 and 4, as in the source.
--  * SafeMap: utils/safemap.go, for any keys and values with their tests of equality.
--  * Words: utils/words.go, Pluralize and AlreadyPluralized with both dictionaries. A slice out of
--    range, a panic in Go, is none.
--  * Slices: utils/slice.go, for any element type with its test of equality. The loops of SliceChunk
--    and SlicePad run on fuel; for SlicePad the number of appended
--    values and one more are enough, for SliceChunk the length and one more.
--  * Work: work.go. Work.antt has jobs, Chain, jobHandler and Do over a state of all jobs, with a
--    handler as a function on it that returns or panics; errors are taken as WrapError gives them.
--    Of an access log entry only the job and its requests with their answers are kept.
--    Work/Pool.antt has the workers, the dispatcher and its goroutines as a step relation: each send
--    and receive is one step, in any order.
--  * Proxy: whttp/proxy.go. Target.antt has the hosts of the configuration, the choice of a backend and
--    the director of reset, Caching.antt the middleware of Proxy with its cache, which is that of
--    Cache and keeps responses as objects of a memory, since CopyTo may let two of them share parts;
--    Forward.antt the request headers of doProxy and Answer.antt the response's; Header.antt
--    what they use of net/http's headers; Copying.antt netHTTPBody and copyBuffer; Latency.antt
--    maxLatencyWriter as steps of its methods and its timer. The reading of URLs, the backend and
--    httpguts are parameters; the index that randomAddr draws is an argument. Letters change their
--    case and spaces are trimmed as in ASCII. copyBuffer runs on
--    fuel; one round more than the body's length is enough.
--  * Rest: rest/query.go, and of rest/model.go, middlewares.go and action.go what makes a query of a
--    request. Rest.antt has Condition, NewCondition, Merge and GetCondition; Query.antt the pages, times
--    and orders and SetParamConds; Init.antt the loop of Init over the parameters, in any order;
--    Select.antt SetConditions, with each condition known by its place; Action.antt PreGet, PreSearch
--    and PreCheck; Where.antt DoWhere and Prepare.antt ReadPrepare, as the calls that they make of
--    gorp's builder. A condition may hold conditions, whose own values are no conditions. What a model
--    knows by reflection, the reading of times and numbers, and fmt are parameters; a pointer in a
--    condition is not nil. Handlers.antt has the handlers of rest/router.go over the hooks of any
--    Action, with the answers of rest/rest.go; Handlers/Outcomes.antt how a handler ends, Handlers/Builtin.antt the
--    built-in routes. Of JSON the
--    code and the value are kept, and http.StatusText is a parameter.
--  * Online: cache.go, the middleware Cache over the cache of Cache and the keys' texts of Proxy, and the
--    cache and the memory after any requests. Responses are objects of a memory that CopyTo, the
--    handlers and the engine change; what they do to it is a parameter. The time to live in a route's
--    options is an int.
--  * Uuid: utils/uuid.go, ShortenUUID and LengthenUUID. A text that SetString refuses, for which the
--    source goes on with an undefined value, and a slice out of range are none.
--  * Params: utils/params.go, NewParams with Parse, Itf, ItfByIndex, Shift, Remains and Destructuring,
--    for values of any type; strings.ToLower, and what reflection and the type assertions tell of a value,
--    are parameters.
--  * Common: Boolean tests, lists over the native numbers, byte strings, reads of a map by a string.
--
-- Not modelled: cron, gorp, resty and daemon, which are copies of other projects; the adapters to the
-- HTTP and RPC engines, the binder, the database layer and the utilities on files and mail, which
-- are input and output or reflection. Of the parts modelled: the timeout of a request to a worker and
-- the lookup of a pool by name, the adaptation of a fasthttp request for the proxy, the trailers of a
-- response and the connection of an upgraded protocol, and the conversions of an argument's value.

pub mod Common
pub mod Cache
pub mod Router
pub mod Mux
pub mod Rpc
pub mod Storage
pub mod Words
pub mod Slices
pub mod SafeMap
pub mod Work
pub mod Proxy
pub mod Uuid
pub mod Params
pub mod Rest
pub mod Online
