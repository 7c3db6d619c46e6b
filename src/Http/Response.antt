-- ===== src/Http/Response.antt =====
-- What a client receives: the server's own `http.ResponseWriter`. The first `WriteHeader` sends the
-- status and the header map as it stands; later ones are ignored, and the first write sends 200.
use Prim.Native.String
use maxwell_go_spine.Prelude.{
  ℕ, ◌≡◌, refl, String, Bool, true, false, Option, none, some, List, [], ◌∷◌, ◌++◌, nat_eq,
  if◌then◌else◌, arith,
}
use maxwell_go_spine.Http.{
  Header, header_set, header_add, Command, set_header, add_header, write_header, write,
}

pub record Response : Type 0 where
  pub header : Header
  pub sent : Option (ℕ × Header)
  pub body : String

abbrev pub fresh : Header → Response
fresh h = record { header = h; sent = none; body = "" }

unfoldable pub send : ℕ → Response → Response
send code r = elim r.sent [ none ↦ record r { sent = some (code, r.header) } | some x ↦ r ]

-- A body is not allowed with 204 and 304.
abbrev pub allows_body : ℕ → Bool
allows_body code = if nat_eq code 204 then false else if nat_eq code 304 then false else true

abbrev append_body : Option (ℕ × Header) → String → Response → Response
append_body none b r = r
append_body (some (code, h)) b r =
    if allows_body code then record r { body = String.◌++◌ r.body b } else r

unfoldable pub apply : Command → Response → Response
unfolding send
apply (set_header k v) r = record r { header = header_set k v r.header }
apply (add_header k v) r = record r { header = header_add k v r.header }
apply (write_header code) r = send code r
apply (write b) r = let r' = send 200 r in append_body r'.sent b r'

unfoldable pub apply_all : List Command → Response → Response
unfolding apply
apply_all [] r = r
apply_all (c ∷ cs) r = apply_all cs (apply c r)

-- When the handler returns without a write the server sends 200.
unfoldable pub serve : List Command → Header → Response
unfolding apply_all send
serve cs h = send 200 (apply_all cs (fresh h))

pub apply_all-append :
    (cs ds : List Command) (r : Response) → apply_all (cs ++ ds) r ≡ apply_all ds (apply_all cs r)
unfolding apply_all
apply_all-append [] ds r = refl
apply_all-append (c ∷ cs) ds r = apply_all-append cs ds (apply c r)

pub send-body : (code : ℕ) (r : Response) → (send code r).body ≡ r.body
unfolding send
send-body code r = ground arith

-- Once something is sent it stays.
pub send-sent : (code : ℕ) (r : Response) (x : ℕ × Header) → r.sent ≡ some x → send code r ≡ r
unfolding send
send-sent code r x e = ground arith

pub apply-sent :
    (c : Command) (r : Response) (x : ℕ × Header) → r.sent ≡ some x → (apply c r).sent ≡ some x
unfolding apply
apply-sent (set_header k v) r x e = e
apply-sent (add_header k v) r x e = e
apply-sent (write_header n) r x e = rw (send-sent n r x e) e
apply-sent (write b) r x e = rw (send-sent 200 r x e) (ground arith)

pub apply_all-sent :
    (cs : List Command) (r : Response) (x : ℕ × Header)
    → r.sent ≡ some x
    → (apply_all cs r).sent ≡ some x
unfolding apply_all
apply_all-sent [] r x e = e
apply_all-sent (c ∷ cs) r x e = apply_all-sent cs (apply c r) x (apply-sent c r x e)
