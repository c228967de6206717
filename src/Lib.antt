-- ===== src/Lib.antt =====
-- The core of fgw, a gateway that implements the Gateway API on Pipy.
--
-- A store of resources (src/resources.js) mirrors the configuration files. The gateway
-- (src/gateway.js) opens a listener for each listener of a Gateway resource, and when a resource
-- changes it marks what is dirty and later runs the updaters that routers have registered in the
-- store. A router (src/modules) selects a rule and a backend for each request, passes the request
-- through the filters (src/filters) and balances it over the healthy targets of the backend.
--
-- The files and the code they model:
--   Base        JavaScript texts, arrays and objects: a text is the list of its code units, an
--               object is an association list in the order of insertion. Lower case, white space
--               and decimal numbers are those of ASCII.
--   Http        src/modules/router-http.js: getMatchPriority (Http/Priority), makeObjectMatcher and
--               makeGRPCMethodMatcher (Http/Matchers), makePathMatcher and the match functions
--               (Http/Entries), makeRuleSelector (Http/Rules; Http/Rules/Preferred relates its order to
--               the specificity of the matches).
--   Hosts       src/modules/router-http.js, makeRouter: the tables of host names.
--   Resources   src/resources.js: changeFile, appendResource, removeResource, list and find;
--               setUpdater, addUpdater and runUpdaters (Resources/Updaters). Resources/Mirror,
--               Resources/Replay and Resources/Follower relate the store to the files and
--               to what its callback is told.
--   Gateway     src/gateway.js: makeListener and findRouteResources; the dirty lists
--               (Gateway/Dirty), onResourceChange (Gateway/Watcher), startGateway and
--               updateDirtyResources (Gateway/Update). Gateway/Pending and Gateway/Updated
--               follow a change from its mark to the updaters, and Gateway/Serving
--               the ports that are opened and closed.
--   Filters     src/filters: RequestHeaderModifier.js and ResponseHeaderModifier.js
--               (Filters/Headers), CircuitBreak.js, IPRestriction.js (Filters/Access),
--               DNSModifier.js (Filters/Dns), URLRewrite.js (Filters/Rewrite).
--   Backends    src/modules/health-check.js (Backends/HealthCheck),
--               src/modules/session-persistence.js (Backends/Sessions), the retries and
--               the pipeline of a target of src/modules/router-http.js (Backends/Retries,
--               Backends/Chain), src/modules/backend-tls.js and
--               findPolicies of src/utils.js (Backends/Peers),
--               src/modules/backend-selector.js and makeFilters of src/utils.js
--               (Backends/Selector), the targets and settings of src/modules/backend.js
--               (Backends/Targets) and its connections (Backends/Connections).
--   Dubbo       src/modules/router-dubbo.js.
--   Tls         src/modules/router-tls.js and src/modules/terminate-tls.js: the tables of names.
--   Options     src/options.js.
--   Pjs         pjs, the former proxy: http/circuit-breaker.js (Pjs/CircuitBreaker), http/route.js
--               (Pjs/Route), the variables of pjs/filter (Pjs/Variables), header-modifier.js
--               (Pjs/Headers), url-rewrite.js and request-redirect.js (Pjs/Rewrites),
--               common/health-check.js (Pjs/HealthCheck, Pjs/Matches), the retries and the
--               sticky cookie of http/forward.js (Pjs/Forward), http/error-page.js (Pjs/ErrorPage),
--               http/access-control-domain.js and its copies (Pjs/Access), http/fault-injection.js
--               (Pjs/FaultInjection), plugins/cors.js (Pjs/Cors), server/web-server.js (Pjs/WebServer).
--   Tests       the theorems at concrete inputs.
--
-- State is passed explicitly: the variables of a module and of a closure are the fields of a record,
-- and an operation returns the record afterwards. What is done outside of the program (ports, calls
-- of updaters) is a list of effects. An exception is a value, `none`, an
-- error or a flag; which calls of updaters throw is a parameter of updateDirtyResources. The loops of the
-- source are over arrays and objects and need no fuel; only the printing of a number is given the
-- number as its fuel, which is enough since each round divides by ten.
--
-- Pipy is not part of the repository. Regular expressions, URLRouter, os.path.join, URL, IPMask,
-- algo.Cache, algo.LoadBalancer and algo.Quota are parameters of the definitions that use them, with what is
-- relied on as hypotheses. algo.SharedMap is used as a map and is modelled as one.
--
-- Not modelled: reading and watching files, timers, the pipelines of Pipy's own filters, the balancers,
-- logs and metrics, the other filters, the rest of the
-- former proxy under pjs, and the launcher and the tools around the program.
pub mod Base
pub mod Http
pub mod Hosts
pub mod Resources
pub mod Gateway
pub mod Filters
pub mod Backends
pub mod Dubbo
pub mod Options
pub mod Pjs
pub mod Tls
pub mod Tests
