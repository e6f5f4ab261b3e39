-- ===== src/Bus/Start/Ready.antt =====
-- What the menus of Project_3/part4/part4.c start with.
use mathlib.Core.Path.{subst}
use lkp.Pages.Ready.{small}
use lkp.Bus.Handler.{start_thread}
use lkp.Pages.Start.Regions.{Succeeds}
use lkp.Bus.All.{assign_from-get}
use lkp.Bus.Single.{IsReady}
use lkp.Bus.Data.{states_size, Globals}
use lkp.Bus.Access.{assign_from, assign_all}
use lkp.Msi.Data.{invalid, MsiList}
use lkp.Pages.Data.{Stuff}
use lkp.Prelude.{sym, ap, ◌∙◌, ◌%◌, refl, arith, none, ◌^◌, ◌<◌, ◌≤◌, ◌*◌, some, Option, ◌≡◌, ℕ}
use lkp.Bus.Start.{globals, client_socket, server_socket, no_bus, init_states}
use lkp.Pages.Start.{registered, Calls}

-- The globals are ready, with no signal, and with `data_length` in the global data.
abbrev pub StartsReady : ℕ → MsiList → ℕ → Option Globals → Type 0
StartsReady count before data_length none = ⊥
StartsReady count before data_length (some x) =
    IsReady x
    × (x.pg_size ≡ count)
    × (x.before ≡ before)
    × (x.data_length ≡ data_length)
    × (x.bus_signal ≡ no_bus)

init_states-Ready :
    (x : Globals)
    → x.pg_size ≤ states_size
    → x.length ≡ x.pg_size * x.page_size
    → 0 < x.page_size
    → x.length < 2 ^ 31
    → x.bus_signal ≡ no_bus
    → StartsReady x.pg_size x.before x.data_length (init_states x)
unfolding init_states assign_all
init_states-Ready x h e k m b = ground (arith, h, ready, b)
  where
    ready :
        StartsReady x.pg_size x.before x.data_length
          (some (record x { states_list = assign_from invalid x.pg_size 0 x.states_list }))
    ready = (
      record {
        has_flags = h;
        has_pages = e;
        has_bytes = k;
        is_small = m;
        is_invalid = λ p u.
            assign_from-get invalid x.pg_size 0 x.states_list p (λ v. absurd (omega arith))
              (omega arith);
      },
      refl,
      refl,
      refl,
      b,
    )

init_states-overflow : (x : Globals) → states_size < x.pg_size → init_states x ≡ none
unfolding init_states assign_all
init_states-overflow x h = ground (arith, h)

server_socket_lem :
    (c : Calls) (d : Stuff) (before : MsiList)
    → (f : Succeeds c 0 d.length d.addr)
    → server_socket c d before
      ≡ init_states (start_thread f.fd (globals 1 c d.length (record d { uffd = f.fd }) before))
unfolding server_socket registered
server_socket_lem c d before f = ground (arith, f.has_fd, f.has_api, f.registers)

client_socket_lem :
    (c : Calls) (d : Stuff) (before : MsiList) (base : ℕ)
    → d.pg_size * c.page_size % 2 ^ 64 ≡ d.length
    → (g : Succeeds c d.addr d.length base)
    → client_socket c d before
      ≡ init_states (start_thread g.fd (globals 2 c 0 (record d { uffd = g.fd }) before))
unfolding client_socket registered
client_socket_lem c d before base e g = ground (arith, e, g.has_fd, g.maps, g.has_api, g.registers)

-- Where the calls succeed, the page sizes are equal and positive, the region is shorter than 2 ^ 31 bytes and states_list has room for the
-- pages, both programs reach their menus with ready globals: every page is invalid, no signal is
-- raised, and data.length is the length of the region on machine 1 and 0 on machine 2. With more
-- pages, both write past the end of states_list.
pub start-Ready :
    (c c' : Calls) (d : Stuff) (before : MsiList) (base : ℕ)
    → 0 < c.page_size
    → c'.page_size ≡ c.page_size
    → d.length ≡ d.pg_size * c.page_size
    → d.length < 2 ^ 31
    → Succeeds c 0 d.length d.addr
    → Succeeds c' d.addr d.length base
    → (d.pg_size ≤ states_size
        → StartsReady d.pg_size before d.length (server_socket c d before)
          × StartsReady d.pg_size before 0 (client_socket c' d before))
      × (states_size < d.pg_size
          → (server_socket c d before ≡ none) × (client_socket c' d before ≡ none))
unfolding start_thread
start-Ready c c' d before base h same e k f g =
    let first = server_socket_lem c d before f in
    let e' : d.length ≡ d.pg_size * c'.page_size = e ∙ ap (λ s. d.pg_size * s) (sym same) in
    let len : d.pg_size * c'.page_size % 2 ^ 64 ≡ d.length =
      ap (λ n. n % 2 ^ 64) (sym e') ∙ small d.length (omega (arith, k)) in
    let second = client_socket_lem c' d before base len g in
    (
      λ fits. (
        subst (StartsReady d.pg_size before d.length) (sym first) (
            init_states-Ready
              (start_thread f.fd (globals 1 c d.length (record d { uffd = f.fd }) before)) fits e h
              k refl),
        subst (StartsReady d.pg_size before 0) (sym second) (
            init_states-Ready (start_thread g.fd (globals 2 c' 0 (record d { uffd = g.fd }) before))
              fits e' (omega (arith, same, h)) k refl),
      ),
      λ large. (
        first
            ∙ init_states-overflow
                (start_thread f.fd (globals 1 c d.length (record d { uffd = f.fd }) before)) large,
        second
            ∙ init_states-overflow
                (start_thread g.fd (globals 2 c' 0 (record d { uffd = g.fd }) before)) large,
      ),
    )
