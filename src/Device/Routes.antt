-- ===== src/Device/Routes.antt =====
-- What the two cross-connect tables of cpp/src/simulated_ocs_device.cpp stand for: an
-- independent reading of the connections, and the loop that fills the tables against it.
use mini_ocs_nos.Base.{
  ℕ, ◌-◌, ◌≤◌, ◌≡◌, ◌≢◌, refl, ap, ite, Option, none, some, List, [], ◌∷◌, arith, set, length,
  length-set, ℕ_discrete,
}
use mini_ocs_nos.Base.Text.{Text}
use mini_ocs_nos.Base.TextMap.{TextMap}
use mini_ocs_nos.Base.TextMap.Laws.{AllEntries}
use mini_ocs_nos.Errors.{Error}
use mini_ocs_nos.DeviceTypes.{AppliedConnection}
use mini_ocs_nos.Device.State.{port_at}
use mini_ocs_nos.Device.Cells.{port_at-some, port_at-set_self, port_at-set_ne}
use mini_ocs_nos.Device.Apply.{accepted, out_of_range, Tables, require_free, cross_connect}

-- The output that the connections give to an input, and the input that they give to an output.
unfoldable pub route : ℕ → TextMap AppliedConnection → Option ℕ
route p [] = none
route p ((k, c) ∷ m) = ite (ℕ_discrete c.input_port p) (some c.output_port) (route p m)

unfoldable pub back_route : ℕ → TextMap AppliedConnection → Option ℕ
back_route p [] = none
back_route p ((k, c) ∷ m) = ite (ℕ_discrete c.output_port p) (some c.input_port) (back_route p m)

abbrev pub Apart : AppliedConnection → AppliedConnection → Type 0
Apart c e = (c.input_port ≢ e.input_port) × (c.output_port ≢ e.output_port)

-- No two connections share an input, and none share an output.
abbrev pub Exclusive : TextMap AppliedConnection → Type 0
Exclusive [] = Unit {0}
Exclusive ((k, c) ∷ m) = AllEntries (λ j e. Apart c e) m × Exclusive m

-- The ports of a connection lie in the matrix.
abbrev pub InMatrix : ℕ → ℕ → Text → AppliedConnection → Type 0
InMatrix ins outs k c =
    (1 ≤ c.input_port) × (c.input_port ≤ ins) × (1 ≤ c.output_port) × (c.output_port ≤ outs)

-- A connection's two cells are empty.
abbrev pub Free : Tables → Text → AppliedConnection → Type 0
Free t k c =
    (port_at t.input_to_output c.input_port ≡ some none)
    × (port_at t.output_to_input c.output_port ≡ some none)

-- What a cell holds after the connections were entered: an empty cell takes the route.
abbrev pub entered : Option (Option ℕ) → Option ℕ → Option (Option ℕ)
entered none r = none
entered (some none) r = some r
entered (some (some x)) r = some (some x)

abbrev pub write : Tables → AppliedConnection → Tables
write t c = record {
  input_to_output = set t.input_to_output (c.input_port - 1) (some c.output_port);
  output_to_input = set t.output_to_input (c.output_port - 1) (some c.input_port);
}

pub record Entered (m : TextMap AppliedConnection) (t u : Tables) : Type 0 where
  pub inputs :
      (p : ℕ) → port_at u.input_to_output p ≡ entered (port_at t.input_to_output p) (route p m)
  pub outputs :
      (p : ℕ) → port_at u.output_to_input p ≡ entered (port_at t.output_to_input p) (back_route p m)
  pub input_length : length u.input_to_output ≡ length t.input_to_output
  pub output_length : length u.output_to_input ≡ length t.output_to_input
  pub free : AllEntries (Free t) m
  pub exclusive : Exclusive m

require_free-accepted :
    (table : List (Option ℕ)) (p : ℕ) (e : Error)
    → require_free table p e ≡ accepted tt
    → port_at table p ≡ some none
unfolding require_free
require_free-accepted table p e h = ground arith

-- The two cells of a connection that cross_connect accepts were empty, and the loop goes on.
cross_connect-head :
    (k : Text) (c : AppliedConnection) (m : TextMap AppliedConnection) (t u : Tables)
    → cross_connect ((k, c) ∷ m) t ≡ accepted u
    → Free t k c × (cross_connect m (write t c) ≡ accepted u)
unfolding cross_connect require_free
cross_connect-head k c m t u h = ground arith

cell_after :
    (table : List (Option ℕ)) (p q : ℕ) (v : ℕ)
    → port_at table p ≡ some none
    → port_at (set table (p - 1) (some v)) q
      ≡ ite (ℕ_discrete p q) (some (some v)) (port_at table q)
cell_after table p q v e = ground (
  arith,
  port_at-set_self table p none (some v) e,
  port_at-set_ne table p q none (some v) e,
  ap (port_at (set table (p - 1) (some v))),
)

Free-write :
    (t : Tables) (k j : Text) (c e : AppliedConnection)
    → Free t k c
    → Free (write t c) j e
    → Free t j e × Apart c e
Free-write t k j c e f g = ground (
  arith,
  cell_after t.input_to_output c.input_port e.input_port c.output_port f.0,
  cell_after t.output_to_input c.output_port e.output_port c.input_port f.1,
)

AllEntries-split :
    (P Q R : Text → AppliedConnection → Type 0) (m : TextMap AppliedConnection)
    → ((j : Text) (e : AppliedConnection) → P j e → Q j e × R j e)
    → AllEntries P m
    → AllEntries Q m × AllEntries R m
AllEntries-split P Q R [] f a = (tt, tt)
AllEntries-split P Q R ((j, e) ∷ m) f a =
    let (q, r) = AllEntries-split P Q R m f a.1 in let (x, y) = f j e a.0 in ((x, q), (y, r))

Entered-cons :
    (k : Text) (c : AppliedConnection) (m : TextMap AppliedConnection) (t u : Tables)
    → Free t k c
    → Entered m (write t c) u
    → Entered ((k, c) ∷ m) t u
unfolding route back_route
Entered-cons k c m t u f h = record {
  inputs = λ p. ground (
    arith,
    h.inputs p,
    cell_after t.input_to_output c.input_port p c.output_port f.0,
    f.0,
    ap (port_at t.input_to_output),
  );
  outputs = λ p. ground (
    arith,
    h.outputs p,
    cell_after t.output_to_input c.output_port p c.input_port f.1,
    ap (port_at t.output_to_input),
  );
  input_length =
      omega (
        arith,
        h.input_length,
        length-set t.input_to_output (c.input_port - 1) (some c.output_port),
      );
  output_length = omega (
    arith,
    h.output_length,
    length-set t.output_to_input (c.output_port - 1) (some c.input_port),
  );
  free = (f, split.0);
  exclusive = (split.1, h.exclusive);
}
  where
    split : AllEntries (Free t) m × AllEntries (λ j e. Apart c e) m
    split =
        AllEntries-split (Free (write t c)) (Free t) (λ j e. Apart c e) m
          (λ j e. Free-write t k j c e f) h.free

-- Tables that the loop returns hold the routes of the connections, each of which found its two
-- cells empty, and no two of which share a port.
pub cross_connect-Entered :
    (m : TextMap AppliedConnection) (t u : Tables) → cross_connect m t ≡ accepted u → Entered m t u
unfolding cross_connect route back_route
cross_connect-Entered [] t u h = record {
  inputs = λ p. ground arith;
  outputs = λ p. ground arith;
  input_length = ground arith;
  output_length = ground arith;
  free = tt;
  exclusive = tt;
}
cross_connect-Entered ((k, c) ∷ m) t u h =
    let (f, rest) = cross_connect-head k c m t u h in
    Entered-cons k c m t u f (cross_connect-Entered m (write t c) u rest)

-- Connections that share no port and find their cells empty are entered.
Free-after :
    (t : Tables) (k : Text) (c : AppliedConnection) (m : TextMap AppliedConnection)
    → Free t k c
    → AllEntries (λ j e. Apart c e) m
    → AllEntries (Free t) m
    → AllEntries (Free (write t c)) m
Free-after t k c [] f a g = tt
Free-after t k c ((j, e) ∷ m) f a g = (
  ground (
    arith,
    cell_after t.input_to_output c.input_port e.input_port c.output_port f.0,
    cell_after t.output_to_input c.output_port e.output_port c.input_port f.1,
  ),
  Free-after t k c m f a.1 g.1,
)

pub cross_connect-Exclusive :
    (m : TextMap AppliedConnection) (t : Tables)
    → AllEntries (Free t) m
    → Exclusive m
    → (u : Tables) × (cross_connect m t ≡ accepted u)
unfolding cross_connect require_free
cross_connect-Exclusive [] t f x = (t, refl)
cross_connect-Exclusive ((k, c) ∷ m) t f x =
    let (u, e) = cross_connect-Exclusive m (write t c) (Free-after t k c m f.0 x.0 f.1) x.1 in
    (u, ground arith)

-- Ports in the matrix are never out of range of the tables.
pub cross_connect-InMatrix :
    (m : TextMap AppliedConnection) (t : Tables)
    → AllEntries (InMatrix (length t.input_to_output) (length t.output_to_input)) m
    → cross_connect m t ≢ out_of_range
unfolding cross_connect require_free
cross_connect-InMatrix [] t h e = cc
cross_connect-InMatrix ((k, c) ∷ m) t (h, hs) e =
    let (x, ex) = port_at-some t.input_to_output c.input_port h.0 h.1 in
    let (y, ey) = port_at-some t.output_to_input c.output_port h.2 h.3 in
    let ins = length-set t.input_to_output (c.input_port - 1) (some c.output_port) in
    let outs = length-set t.output_to_input (c.output_port - 1) (some c.input_port) in
    let rest = cross_connect-InMatrix m (write t c) (rw (ins, outs) hs) in
    ground (arith, ex, ey, rest)
