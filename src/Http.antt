-- ===== src/Http.antt =====
-- src/modules/router-http.js: the configuration of HTTP and gRPC routes, and the request that they
-- are matched against. A field that the configuration may omit is an Option.
pub mod Priority
pub mod Matchers
pub mod Entries
pub mod Rules
use fgw.Base.{ℕ, Text, List, Option, none, some, Bool, true, false, truthy}

pub data PathType : Type 0 where
  exact path_prefix regular_expression : PathType
  other : Text → PathType

pub record PathMatch : Type 0 where
  pub type : Option PathType
  pub value : Text

-- The `type` of a condition on a header, a query parameter or a gRPC method.
pub data MatchType : Type 0 where
  exact regular_expression : MatchType
  other : Text → MatchType

pub record ValueMatch : Type 0 where
  pub type : Option MatchType
  pub name : Text
  pub value : Text

pub record GrpcMethod : Type 0 where
  pub type : Option MatchType
  pub service : Option Text
  pub method : Option Text

-- `m.method` is a text in an HTTPRoute and an object in a GRPCRoute.
pub data MethodMatch : Type 0 where
  absent : MethodMatch
  verb : Text → MethodMatch
  call : GrpcMethod → MethodMatch

pub record RouteMatch : Type 0 where
  pub path : Option PathMatch
  pub method : MethodMatch
  pub headers : Option (List ValueMatch)
  pub query_params : Option (List ValueMatch)

pub record Head : Type 0 where
  pub method : Text
  pub path : Text
  pub headers : List (Text × Text)

abbrev pub has_method : MethodMatch → Bool
has_method absent = false
has_method (verb s) = truthy s
has_method (call g) = true
