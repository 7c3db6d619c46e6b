-- ===== src/Graph/Server.antt =====
-- graph/server/handler.go: the handlers that it gives out. `handler.NewDefaultServer` and
-- `playground.Handler` of gqlgen are arguments.
use maxwell_go_spine.Prelude.{String}
use maxwell_go_spine.Graph.Executor.Complexity.{ExecutableSchema, server_schema}

unfoldable pub new_server : {A : Type 0} (S : Type 0) → (ExecutableSchema S → A) → A
new_server S new_default_server = new_default_server (server_schema S)

unfoldable pub playground_handler : {A : Type 0} → (String → String → A) → A
playground_handler handler = handler "GraphQL" "/v1/graphql"
