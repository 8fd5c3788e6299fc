-- ===== src/Startup/Routes.antt =====
-- The routes that internal/api/handler.go and internal/api/health.go register themselves.
use shortlink_system.Base.{◌≡◌, refl, List, [], ◌∷◌, ◌++◌, bytes, false}
use shortlink_system.Startup.{Route, live, ready, generate_short_link, decode, redirect, routes}

-- `RegisterRoutes` of the probes.
abbrev pub health_routes : List Route
health_routes =
    record { method = bytes "GET"; path = bytes "/health"; limited = false; endpoint = live }
    ∷ record { method = bytes "GET"; path = bytes "/ready"; limited = false; endpoint = ready }
    ∷ []

-- `RegisterRoutes` of the handlers, which `main` does not call.
abbrev pub register_routes : List Route
register_routes =
    record {
      method = bytes "POST";
      path = bytes "/api/v1/encode";
      limited = false;
      endpoint = generate_short_link;
    }
    ∷ record {
      method = bytes "GET";
      path = bytes "/api/v1/decode/:code";
      limited = false;
      endpoint = decode;
    }
    ∷ record { method = bytes "GET"; path = bytes "/:code"; limited = false; endpoint = redirect }
    ∷ []

-- Without the limiter the routes of `main` are these.
routes_lem : routes false ≡ health_routes ++ register_routes
unfolding routes
routes_lem = refl
