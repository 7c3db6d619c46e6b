-- ===== src/Graph/Executor/Stubs.antt =====
-- graph/resolver/schema.resolvers.go: the resolvers behind /v1/graphql.
use maxwell_go_spine.Go.Error.{panic}
use maxwell_go_spine.Graph.Executor.{MutationResolver, QueryResolver, ResolverRoot}

module _ (S : Type 0) where
  unfoldable pub mutation_resolver : MutationResolver S
  mutation_resolver = record {
    create_user = λ name email s. (panic, s);
    update_user = λ id name email s. (panic, s);
    delete_user = λ id s. (panic, s);
  }

  unfoldable pub query_resolver : QueryResolver S
  query_resolver = record { users = λ page page_size s. (panic, s); user = λ id s. (panic, s) }

  -- `Resolver`, with its methods `Mutation` and `Query`.
  unfoldable pub resolver : ResolverRoot S
  unfolding mutation_resolver query_resolver
  resolver = record { mutation = mutation_resolver; query = query_resolver }
