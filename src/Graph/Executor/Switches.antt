-- ===== src/Graph/Executor/Switches.antt =====
-- The switches over field names in the executor: which names they know, and how a proof goes through
-- their cases.
use maxwell_go_spine.Prelude.{◌≡◌, String, Bool, true, false, ◌==◌, List, [], ◌∷◌, if◌then◌else◌}
use maxwell_go_spine.Graph.Executor.{CollectedField}

abbrev pub is_mutation_field : String → Bool
is_mutation_field n =
    if n == "__typename"
    then true
    else if n == "createUser"
    then true
    else if n == "updateUser"
    then true
    else n == "deleteUser"

-- The fields of a query other than those of introspection.
abbrev pub is_query_field : String → Bool
is_query_field n = if n == "__typename" then true else if n == "users" then true else n == "user"

-- Those of introspection too.
abbrev pub is_root_query_field : String → Bool
is_root_query_field n =
    if n == "__typename"
    then true
    else if n == "users"
    then true
    else if n == "user"
    then true
    else if n == "__type"
    then true
    else n == "__schema"

abbrev pub is_user_field : String → Bool
is_user_field n =
    if n == "__typename"
    then true
    else if n == "id"
    then true
    else if n == "name"
    then true
    else if n == "email"
    then true
    else if n == "createdAt"
    then true
    else if n == "updatedAt"
    then true
    else n == "deletedAt"

-- The collected fields all pass the test.
abbrev pub AllNamed : {Sel : Type 0} → (String → Bool) → List (CollectedField Sel) → Type 0
AllNamed known [] = Unit
AllNamed known (field ∷ fields) = (known field.field_name ≡ true) × AllNamed known fields

-- The collected fields hold one that passes the test.
abbrev pub some_field : {Sel : Type 0} → (String → Bool) → List (CollectedField Sel) → Bool
some_field test [] = false
some_field test (field ∷ fields) = if test field.field_name then true else some_field test fields

-- An outcome that holds under a test holds under `if`.
pub if_split :
    {A : Type 0} (P : A → Type 0) (b : Bool) {x y : A} → P x → P y → P (if b then x else y)
if_split P true p q = p
if_split P false p q = q

-- A case of a switch, and the cases behind it.
pub case_split :
    {A : Type 0} (P : A → Type 0) (b rest : Bool) {x y : A}
    → P x
    → (rest ≡ true → P y)
    → (if b then true else rest) ≡ true
    → P (if b then x else y)
case_split P true rest p q h = p
case_split P false rest p q h = q h

pub last_case :
    {A : Type 0} (P : A → Type 0) (b : Bool) {x : A} (y : A)
    → P x
    → b ≡ true
    → P (if b then x else y)
last_case P true y p h = p
last_case P false y p h = absurd (cc)

-- The two branches of a switch and of what it is compared with.
pub pair_split :
    {A B : Type 0} (P : B → A → Type 0) (b rest : Bool) {n m : B} {x y : A}
    → P n x
    → (rest ≡ true → P m y)
    → (if b then true else rest) ≡ true
    → P (if b then n else m) (if b then x else y)
pair_split P true rest p q h = p
pair_split P false rest p q h = q h
