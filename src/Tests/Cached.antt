-- ===== src/Tests/Cached.antt =====
-- The caching service over a small service, with lists of pairs as local cache and as Redis.
use maxwell_go_spine.Prelude.{
  ◌≡◌, ◌≢◌, refl, ap, true, String, Option, none, some, List, [], ◌∷◌, nat_eq, if◌then◌else◌, arith,
  eq_iff,
}
use maxwell_go_spine.Prelude.Maps.Str.{lookup, insert, remove, lookup-insert, lookup-remove}
use maxwell_go_spine.Go.Int.{pos, negsuc, mul64, sub64, add64}
use maxwell_go_spine.Go.Error.{not_found, Result, ok, err}
use maxwell_go_spine.Core.User.{Uuid, User, Env, UserService}
use maxwell_go_spine.Cache
use maxwell_go_spine.Cache.{Bytes, LocalCache, Redis, Layered, Stores}
use maxwell_go_spine.Cache.Coherence.{IsStore}
use maxwell_go_spine.Go.Text.Number.{print_nat, print_int}
use maxwell_go_spine.Core.Cached
use maxwell_go_spine.Core.Cached.InMemory.{cached_in_memory-get}
use maxwell_go_spine.Core.Service
use maxwell_go_spine.Core.Service.{Mail, new_user_service}
use maxwell_go_spine.Core.Service.Validation.{IsWellFormed}
use maxwell_go_spine.Core.Memory
use maxwell_go_spine.Core.Memory.{InMemoryUserRepo, new_in_memory, in_memory_repository}
use maxwell_go_spine.Go.Text.Trim.{trim_space}
use maxwell_go_spine.Go.Text.Split.{to_lower}
use maxwell_go_spine.Prelude.Maps.Nat.{lookup as lookup_id}
use maxwell_go_spine.Core.Cached.{Cached, cache_key_list}
use maxwell_go_spine.Core.Cached.Fresh.{IsUserStore, Wrote, Found}
use maxwell_go_spine.Core.Cached.Lists.{read_list_key, cache_key_list-read}
use maxwell_go_spine.Go.Text.Split.{split}
use maxwell_go_spine.Core.Cached.Served
use maxwell_go_spine.Core.Cached.Served.{
  create_call, get_call, update_call, delete_call, list_call, serve_all, serve_all-get,
}
use maxwell_go_spine.Tests.Codec.{codec, codec-IsCodec}

abbrev Entries : Type 0
Entries = List (String × Bytes)

abbrev Holds : String → Bytes → Entries → Type 0
Holds k b s = lookup k s ≡ some b

abbrev local : LocalCache Entries
local = record { get = λ k s. (lookup k s, s); set = insert; del = remove }

abbrev redis : Redis Entries
redis = record {
  get = λ k s. (lookup k s, s);
  set = λ k b ttl s. (none, insert k b s);
  del = λ k s. (none, remove k s);
}

entries-IsStore : IsStore Holds (λ k s. (lookup k s, s)) insert remove
entries-IsStore = record {
  get_holds = λ k b s e. e;
  get_keeps = λ k j w s h. h;
  set_holds = λ k j b w s h. ground (arith, lookup-insert k j b s, eq_iff k j, h);
  del_holds = λ k j w s h. ground (arith, lookup-remove k j s, eq_iff k j, h);
}

abbrev cache : Layered Entries Entries
cache = record { local = local; redis = some redis; ttl = pos 300 }

-- A service that keeps only names.
abbrev Names : Type 0
Names = Uuid → Option String

abbrev named : Uuid → String → User
named id name = record {
  id = id;
  name = name;
  email = "a@b.c";
  created_at = 1;
  updated_at = 1;
  deleted_at = none;
}

abbrev found : Uuid → Option String → Option User
found id none = none
found id (some name) = some (named id name)

abbrev find : Uuid → Names → Option User
find id s = found id (s id)

abbrev write : Uuid → Option String → Names → Names
write id name s = λ j. if nat_eq id j then name else s j

abbrev get_name : Uuid → Names → Option String → Result User × Names
get_name id s none = (err not_found, s)
get_name id s (some name) = (ok (named id name), s)

abbrev new_name : Option String → String → String
new_name none old = old
new_name (some name) old = name

abbrev update_name : Uuid → Option String → Names → Option String → Result User × Names
update_name id name s none = (err not_found, s)
update_name id name s (some old) =
    (ok (named id (new_name name old)), write id (some (new_name name old)) s)

abbrev names : UserService Names
names = record {
  create = λ env name email s. (ok (named env.new_id name), write env.new_id (some name) s);
  get = λ env id s. get_name id s (s id);
  update = λ env id name email s. update_name id name s (s id);
  delete = λ env id s. (ok tt, write id none s);
  list = λ env page size s. (ok ([], pos 0), s);
}

write_self :
    (id : Uuid) (name : String) (s : Names)
    → find id (write id (some name) s) ≡ some (named id name)
write_self id name s = ground arith

write_other :
    (id j : Uuid) (name : Option String) (s : Names) → j ≢ id → find j (write id name s) ≡ find j s
write_other id j name s n = ground arith

get_name-Found :
    (id : Uuid) (s : Names) (o : Option String) → s id ≡ o → Found find s (get_name id s o)
get_name-Found id s none e = λ j. refl
get_name-Found id s (some name) e = (ap (found id) e, λ j. refl)

get_name_answers :
    (id : Uuid) (s s' : Names) (u : User) (o : Option String)
    → get_name id s o ≡ (ok u, s')
    → found id o ≡ some u
get_name_answers id s s' u none e =
    let clash : err not_found ≡ ok u = ap (λ p. p.0) e in absurd (cc)
get_name_answers id s s' u (some name) e =
    let same : ok (named id name) ≡ ok u = ap (λ p. p.0) e in cc

update_name-Wrote :
    (id : Uuid) (name : Option String) (s : Names) (o : Option String)
    → Wrote find s (update_name id name s o)
update_name-Wrote id name s none = λ j. refl
update_name-Wrote id name s (some old) =
    (write_self id (new_name name old) s, λ j n. write_other id j (some (new_name name old)) s n)

abbrev Anything : Names → Type 0
Anything s = Unit

names-IsUserStore : IsUserStore names find Anything
names-IsUserStore = record {
  creates = λ env name email s v.
      ((write_self env.new_id name s, λ j n. write_other env.new_id j (some name) s n), tt);
  gets = λ env id s v. (get_name-Found id s _ refl, tt);
  answers = λ env id s s' u e. get_name_answers id s s' u _ e;
  updates = λ env id name email s v. (update_name-Wrote id name s _, tt);
  deletes = λ env id s v. ((λ j n. write_other id j none s n), tt);
  lists = λ env page size s v. ((λ j. refl), tt);
}

abbrev empty : Cached Names Entries Entries
empty = record { base = λ j. none; stores = record { near = []; far = [] }; list_ver = 0 }

abbrev env : Env
env = record { now = 1; new_id = 7; range_order = 0 }

abbrev calls : List Served.Call
calls =
    create_call env "ann" "a@b.c"
    ∷ get_call env 7
    ∷ list_call env (pos 1) (pos 20)
    ∷ update_call env 7 (some "eve") none
    ∷ []

-- After the update `Get` answers from the cache, and answers the new name.
hit :
    (Cached.get codec cache names env 7 (serve_all codec cache names calls empty)).0
    ≡ ok (named 7 "eve")
unfolding serve_all Cached.get Cached.create Cached.update Cached.list Cache.get Cache.set
    Cache.delete Cached.get_user Cached.on_base Cached.cache_key_user Cached.cache_key_list
    print_nat print_int
hit = refl

abbrev last : Cached Names Entries Entries
last = (Cached.get codec cache names env 7 (serve_all codec cache names calls empty)).1

serve_all-get_example : find 7 last.base ≡ some (named 7 "eve")
serve_all-get_example =
    serve_all-get codec codec-IsCodec names find Anything names-IsUserStore cache Holds Holds
      entries-IsStore entries-IsStore calls empty env 7 (named 7 "eve")
      (tt, ((λ k b h. absurd (cc)), λ k b h. absurd (cc))) hit

abbrev mail : Mail
mail = record { unicode_lower = λ c. c; parse_address = λ s. true }

abbrev memory_svc : UserService InMemoryUserRepo
memory_svc = new_user_service mail (in_memory_repository (λ n l. l))

abbrev new_cached : Cached InMemoryUserRepo Entries Entries
new_cached = record { base = new_in_memory; stores = record { near = []; far = [] }; list_ver = 0 }

abbrev renamed : User
renamed = record {
  id = 7;
  name = "eve";
  email = "a@b.c";
  created_at = 1;
  updated_at = 1;
  deleted_at = none;
}

memory_hit :
    (Cached.get codec cache memory_svc env 7 (serve_all codec cache memory_svc calls new_cached)).0
    ≡ ok renamed
unfolding serve_all Cached.get Cached.create Cached.update Cached.list Cache.get Cache.set
    Cache.delete Cached.get_user Cached.on_base Cached.cache_key_user Cached.cache_key_list
    print_nat print_int new_user_service Service.create Service.get Service.update Service.list
    in_memory_repository Memory.create Memory.get Memory.update Memory.list new_in_memory trim_space
    to_lower mul64 sub64 add64
memory_hit = refl

abbrev memory_users : List (Uuid × User)
memory_users =
    (Cached.get codec cache memory_svc env 7
      (serve_all codec cache memory_svc calls new_cached)).1.base.users

cached_in_memory-get_example :
    (lookup_id 7 memory_users ≡ some renamed)
    × (renamed.deleted_at ≡ none)
    × (renamed.id ≡ 7)
    × IsWellFormed mail renamed
cached_in_memory-get_example =
    cached_in_memory-get mail (λ n l. l) codec codec-IsCodec cache Holds Holds entries-IsStore
      entries-IsStore calls new_cached env 7 renamed refl
      ((λ k b h. absurd (cc)), λ k b h. absurd (cc)) memory_hit

cache_key_list-read_example :
    read_list_key (split b':' (cache_key_list 3 (pos 12) (negsuc 4))) ≡ some (3, pos 12, negsuc 4)
cache_key_list-read_example =
    cache_key_list-read 3 (pos 12) (negsuc 4) (omega arith) (omega arith) (omega arith)
