-- ===== src/Tests/Codec.antt =====
-- A codec of users as texts that gives back what it wrote.
use maxwell_go_spine.Prelude.{
  ℕ, zero, suc, ◌≡◌, refl, ap, sym, ◌∙◌, String, Option, none, some, nat_eq, code, if◌then◌else◌,
}
use maxwell_go_spine.Core.User.{User}
use maxwell_go_spine.Core.Cached.{Codec}
use maxwell_go_spine.Core.Cached.Fresh.{IsCodec}

-- A number as so many ones and a zero.
abbrev put_nat : ℕ → String → String
put_nat zero rest = String.◌∷◌ "0" rest
put_nat (suc n) rest = String.◌∷◌ "1" (put_nat n rest)

abbrev read_nat : String → ℕ × String
read_nat String.[] = (0, String.[])
read_nat (String.◌∷◌ c s) =
    let (n, rest) = read_nat s in if nat_eq (code c) b'1' then (suc n, rest) else (0, s)

read-put_nat : (n : ℕ) (rest : String) → read_nat (put_nat n rest) ≡ (n, rest)
read-put_nat zero rest = refl
read-put_nat (suc n) rest = ap (λ (p : ℕ × String). (suc p.0, p.1)) (read-put_nat n rest)

-- A text as its characters, a one before each, and a zero.
abbrev put_text : String → String → String
put_text String.[] rest = String.◌∷◌ "0" rest
put_text (String.◌∷◌ c s) rest = String.◌∷◌ "1" (String.◌∷◌ c (put_text s rest))

abbrev read_text : String → String × String
read_text String.[] = (String.[], String.[])
read_text (String.◌∷◌ m String.[]) = (String.[], String.[])
read_text (String.◌∷◌ m (String.◌∷◌ c s)) =
    let (t, rest) = read_text s in
    if nat_eq (code m) b'1' then (String.◌∷◌ c t, rest) else (String.[], String.◌∷◌ c s)

-- The next character is written as one more number, so the marker is never the last character.
read-put_text :
    (s : String) (n : ℕ) (rest : String)
    → read_text (put_text s (put_nat n rest)) ≡ (s, put_nat n rest)
read-put_text String.[] zero rest = refl
read-put_text String.[] (suc n) rest = refl
read-put_text (String.◌∷◌ c s) n rest =
    ap (λ (p : String × String). (String.◌∷◌ c p.0, p.1)) (read-put_text s n rest)

abbrev of_deleted : Option ℕ → ℕ
of_deleted none = 0
of_deleted (some t) = suc t

abbrev to_deleted : ℕ → Option ℕ
to_deleted zero = none
to_deleted (suc t) = some t

to-of_deleted : (d : Option ℕ) → to_deleted (of_deleted d) ≡ d
to-of_deleted none = refl
to-of_deleted (some t) = refl

abbrev put_user : User → String
put_user u = put_text u.name (
    put_nat u.id (
      put_text u.email
        (put_nat u.created_at (put_nat u.updated_at (put_nat (of_deleted u.deleted_at) "")))))

abbrev user_of_text : String → User
user_of_text s =
    let (name, s1) = read_text s in
    let (id, s2) = read_nat s1 in
    let (email, s3) = read_text s2 in
    let (created_at, s4) = read_nat s3 in
    let (updated_at, s5) = read_nat s4 in
    let (deleted, s6) = read_nat s5 in
    record {
      id = id;
      name = name;
      email = email;
      created_at = created_at;
      updated_at = updated_at;
      deleted_at = to_deleted deleted;
    }

read-put_user : (u : User) → user_of_text (put_user u) ≡ u
read-put_user u = rw (
  read-put_text u.name,
  read-put_nat u.id,
  read-put_text u.email,
  read-put_nat u.created_at,
  read-put_nat u.updated_at,
  read-put_nat (of_deleted u.deleted_at),
  to-of_deleted u.deleted_at,
)

abbrev unmarshal : Option String → Option User
unmarshal none = none
unmarshal (some s) = some (user_of_text s)

abbrev pub codec : Codec
codec = record {
  uuid_text = λ n. put_nat n "";
  marshal_user = λ u. some (put_user u);
  unmarshal_user = unmarshal;
  marshal_page = λ p. none;
  unmarshal_page = λ b. none;
}

pub codec-IsCodec : IsCodec codec
codec-IsCodec = record {
  uuid_injective = λ i j e.
      sym (ap (λ (p : ℕ × String). p.0) (read-put_nat i ""))
      ∙ ap (λ (s : String). (read_nat s).0) e
      ∙ ap (λ (p : ℕ × String). p.0) (read-put_nat j "");
  round_trip = λ u. ap (λ (w : User). some w) (read-put_user u);
}
