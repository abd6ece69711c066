-- ===== src/Routing.antt =====
-- Routing of a request to a provider and a model: src/inferrail/routing/router.py.
use inferrail.Common.{ℕ, String, Option, none, some}
use inferrail.Common.Dict.{Dict, lookup}

-- A timeout is a number of milliseconds.
pub record RouteConfig : Type 0 where
  pub provider : String
  pub model : String
  pub max_retries : ℕ
  pub timeout_ms : ℕ

pub record RoutingDecision : Type 0 where
  pub route_name : String
  pub provider_name : String
  pub model : String
  pub max_retries : ℕ
  pub timeout_ms : ℕ

pub record Router : Type 0 where
  pub routes : Dict RouteConfig
  pub default_provider : Option String

-- RoutingError is `none`.
unfoldable pub passthrough : String → Option String → Option RoutingDecision
passthrough requested none = none
passthrough requested (some provider) = some record {
  route_name = "passthrough";
  provider_name = provider;
  model = requested;
  max_retries = 0;
  timeout_ms = 30000;
}

unfoldable pub by_route : String → Option String → Option RouteConfig → Option RoutingDecision
unfolding passthrough
by_route requested default_provider none = passthrough requested default_provider
by_route requested default_provider (some route) = some record {
  route_name = requested;
  provider_name = route.provider;
  model = route.model;
  max_retries = route.max_retries;
  timeout_ms = route.timeout_ms;
}

unfoldable pub route_request : Router → String → Option RoutingDecision
unfolding by_route lookup
route_request r requested = by_route requested r.default_provider (lookup requested r.routes)
