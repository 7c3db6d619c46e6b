-- ===== src/Tests/Executor.antt =====
-- The executor of gqlgen at concrete selections.
use maxwell_go_spine.Prelude.{
  ◌≡◌, refl, ℕ, String, Bool, true, false, Option, none, some, List, [], ◌∷◌, map,
}
use maxwell_go_spine.Go.Int.{ℤ, pos}
use maxwell_go_spine.Go.Error.{plain, Result, ok, err, panic}
use maxwell_go_spine.Graph.{GraphUser}
use maxwell_go_spine.Graph.Introspection.{TypeMethods, type_ref}
use maxwell_go_spine.Graph.Executor.{
  Marshaler, null, written, array, object, element, no_elements, output, no_outputs, Raw, nil,
  boolean, integer, text, other, RawArgs, name, Run, CollectedField, ResolverRoot, Runtime,
}
use maxwell_go_spine.Graph.Executor.Args.{users_args, unmarshal_o_int}
use maxwell_go_spine.Graph.Executor.Objects.{
  fill_fields, user_object, user_field, user_id, user_name, marshal_n_id, marshal_n_string,
  marshal_n_user,
}
use maxwell_go_spine.Graph.Executor.Roots.{
  query, Reply, data_reply, error_reply, mutation_create_user, field_context_create_user,
  query_users, field_context_users, mutation_field, mutation_object, query_field, query_object,
  exec,
}
use maxwell_go_spine.Graph.Executor.Args.{create_user_args, unmarshal_n_string}
use maxwell_go_spine.Graph.Executor.Stubs.{query_resolver, resolver}
use maxwell_go_spine.Graph.Executor.Told.{has_reports}
use maxwell_go_spine.Graph.Executor.Operations.{null_data-told}
use maxwell_go_spine.Graph.Executor.Returns.{operations-return}
use maxwell_go_spine.Graph.Executor.Unserved.{stubs-serve_null}
use maxwell_go_spine.Graph.Executor.Projected.{query_users-output}

-- A selection: names of fields, each with the names selected below it.
abbrev Sel : Type 0
Sel = List (String × List String)

abbrev arguments : RawArgs
arguments =
    ("id", text "7")
    ∷ ("name", text "ann")
    ∷ ("email", text "a@b.c")
    ∷ ("page", integer (pos 2))
    ∷ []

abbrev collected : String × List String → CollectedField Sel
collected (n, below) = record {
  field_name = n;
  alias = n;
  arguments = arguments;
  selections = map (λ (s : String). (s, [])) below;
}

abbrev string_of : Raw → Result String
string_of (text t) = ok t
string_of nil = err (plain "no text")
string_of (boolean b) = err (plain "no text")
string_of (integer n) = err (plain "no text")
string_of (other t) = err (plain "no text")

abbrev int_of : Raw → Result ℤ
int_of (integer n) = ok n
int_of nil = err (plain "no number")
int_of (boolean b) = err (plain "no number")
int_of (text t) = err (plain "no number")
int_of (other t) = err (plain "no number")

abbrev boolean_of : Raw → Result Bool
boolean_of (boolean b) = ok b
boolean_of nil = ok false
boolean_of (integer n) = err (plain "no boolean")
boolean_of (text t) = err (plain "no boolean")
boolean_of (other t) = err (plain "no boolean")

abbrev no_methods : TypeMethods
no_methods = record {
  kind = panic;
  name = ok none;
  description = ok none;
  fields = λ b. ok none;
  interfaces = ok none;
  possible_types = ok none;
  enum_values = λ b. ok none;
  input_fields = ok none;
  of_type = ok none;
  specified_by_url = ok none;
}

abbrev rt : Runtime Sel ℕ
rt = record {
  collect_fields = λ sel type_name. map collected sel;
  unmarshal_string = string_of;
  unmarshal_id = string_of;
  unmarshal_int = int_of;
  unmarshal_boolean = boolean_of;
  error_on_path = λ q e. e;
  marshal_string = written;
  marshal_id = written;
  marshal_boolean = λ b. written "true";
  has_field_error = λ q rs. has_reports rs;
  recovered = plain "internal system error";
  resolver_middleware = λ f. f;
  root_resolver_middleware = λ f. f;
  disable_introspection = true;
  introspection = record {
    wrap_schema = none;
    wrap_type = λ n. some (type_ref n);
    methods = λ t. no_methods;
  };
  depth = λ sel. 2;
}

abbrev start : Run ℕ
start = record { state = 5; reports = [] }

abbrev ann : GraphUser
ann = record {
  id = "7";
  name = "ann";
  email = "a@b.c";
  created_at = "now";
  updated_at = "now";
  deleted_at = none;
}

-- Resolvers over a counter.
abbrev resolvers : ResolverRoot ℕ
resolvers = record {
  mutation = record {
    create_user = λ n e s. (ok (some ann), s);
    update_user = λ id n e s. (err (plain "conflict"), s);
    delete_user = λ id s. (ok true, s);
  };
  query = record { users = λ page size s. (ok (ann ∷ []), 6); user = λ id s. (ok none, s) };
}

abbrev users_field : CollectedField Sel
users_field = collected ("users", "id" ∷ "deletedAt" ∷ [])

abbrev failed : Run ℕ
failed = record { state = 5; reports = (name "users" ∷ [], plain "internal system error") ∷ [] }

abbrev one_shot : String → Bool → Option Reply × Bool
one_shot t true = (some (error_reply t), false)
one_shot t false = (none, false)

users_null :
    exec rt (resolver ℕ) one_shot query (("users", "id" ∷ []) ∷ []) true start
    ≡ (ok (some (data_reply null), false), failed)
unfolding exec query_object fill_fields query_field query_users field_context_users users_args
    unmarshal_o_int resolver query_resolver
users_null = refl

null_data-told_example : has_reports failed.reports ≡ true
null_data-told_example =
    null_data-told rt (λ q rs h. h) (λ f t. refl) (resolver ℕ) one_shot query
      (("users", "id" ∷ []) ∷ []) start false failed (cc) users_null

abbrev creating : Sel
creating = ("__typename", []) ∷ ("createUser", "id" ∷ "name" ∷ []) ∷ []

abbrev listing : Sel
listing = ("users", "id" ∷ "deletedAt" ∷ []) ∷ ("user", "id" ∷ []) ∷ []

operations-return_example :
    ((m : Marshaler) × (t : Run ℕ) × (mutation_object rt resolvers creating start ≡ (ok m, t)))
    × ((m : Marshaler) × (t : Run ℕ) × (query_object rt resolvers listing start ≡ (ok m, t)))
operations-return_example =
    operations-return rt (λ q rs h. h) (λ f t. refl) resolvers creating listing start
      (refl, (refl, tt)) (refl, (refl, tt))

stubs-serve_null_example :
    ((mutation_object rt (resolver ℕ) creating start).0 ≡ ok null)
    × ((query_object rt (resolver ℕ) listing start).0 ≡ ok null)
stubs-serve_null_example =
    stubs-serve_null rt (λ f s. refl) (λ f t. refl) creating listing start (refl, (refl, tt))
      (refl, (refl, tt)) refl refl

query_users-output_example : query_users rt resolvers (name "users" ∷ []) users_field start ≡ (
  ok (
      array (
        element
          (object (output "id" (written "7") (output "deletedAt" null no_outputs)))
          no_elements)),
  record { state = 6; reports = [] },
)
unfolding unmarshal_o_int
query_users-output_example =
    query_users-output rt resolvers (name "users" ∷ []) users_field start (some (pos 2)) none
      (ann ∷ []) 6 (λ f s. refl) (λ t. (refl, refl)) (refl, (refl, tt)) refl refl refl

abbrev created_output : Marshaler
created_output = object (
    output "__typename" (written "Mutation") (
      output "createUser"
        (object (output "id" (written "7") (output "name" (written "ann") no_outputs))) no_outputs))

created_data : mutation_object rt resolvers creating start ≡ (ok created_output, start)
unfolding mutation_object fill_fields mutation_field mutation_create_user field_context_create_user
    create_user_args unmarshal_n_string marshal_n_user user_object user_field user_id user_name
    marshal_n_id marshal_n_string
created_data = refl
