-- ===== src/Config/V5/Reported.antt =====
-- The sizes of the sessions in a file of version 5: they take effect, and are reported as not
-- supported all the same.
use text.Mathlib.Text
use text.Mathlib.TextEquality.{eq_iff}
use gnosis_vpn_client.Prelude.{
  ℕ, String, Bool, true, any, some, List, [], ◌∷◌, ◌++◌, ◌≡◌, refl, arith, Bool-cases, inl, inr,
}
use gnosis_vpn_client.Config.Toml.{Value, table, Table, end, entry, get, each}
use gnosis_vpn_client.Config.Parts.{Edge}
use gnosis_vpn_client.Config.V5.Load.{Connection, BufferOptions, options}
use gnosis_vpn_client.Config.V5.Keys.{connection_key, root_key, wrong_keys}

abbrev pub mentions : String → List String → Bool
mentions text = any (λ t. Text.◌==◌ t text)

mentions-append_right :
    (text : String) (xs ys : List String)
    → mentions text ys ≡ true
    → mentions text (xs ++ ys) ≡ true
mentions-append_right text [] ys h = h
mentions-append_right text (x ∷ xs) ys h = ground (arith, mentions-append_right text xs ys h)

mentions-append_left :
    (text : String) (xs ys : List String)
    → mentions text xs ≡ true
    → mentions text (xs ++ ys) ≡ true
mentions-append_left text [] ys h = cc
mentions-append_left text (x ∷ xs) ys h = ground (arith, mentions-append_left text xs ys)

-- What a body pushes for the entry that `get` finds is in what the loop pushes.
each-mentions :
    (body : String → Value → List String) (k text : String) (t : Table) (v : Value)
    → get k t ≡ some v
    → mentions text (body k v) ≡ true
    → mentions text (each body t) ≡ true
unfolding get each
each-mentions body k text end v found h = cc
each-mentions body k text (entry j w rest) v found h = elim (Bool-cases (Text.◌==◌ j k)) [
  | inl same ↦
      let value : w ≡ v = cc (rw same at found) in
      mentions-append_left text (body j w) (each body rest) (rw ((eq_iff j k).0 same) (rw value h))
  | inr differs ↦
      mentions-append_right text (body j w) (each body rest)
        (each-mentions body k text rest v (rw differs at found) h)
]

-- In a file of version 5 whose connection has a buffer, the buffer of the main session takes effect,
-- and wrong_keys reports connection.buffer as a key that is not supported and ignored.
pub buffer_honoured_and_reported :
    (l : Edge) (t c : Table) (v : Value) (connection : Connection) (b : BufferOptions) (size : ℕ)
    → get "connection" t ≡ some (table c)
    → get "buffer" c ≡ some v
    → connection.buffer ≡ some b
    → b.main ≡ some size
    → ((options l (some connection)).surb_balancing.main.buffer ≡ size)
      × (mentions "connection.buffer" (wrong_keys t) ≡ true)
unfolding options wrong_keys
buffer_honoured_and_reported l t c v connection b size section key decoded main = (
  rw decoded (rw main refl),
  each-mentions root_key "connection" "connection.buffer" t (table c) section
      (each-mentions connection_key "buffer" "connection.buffer" c v key refl),
)
