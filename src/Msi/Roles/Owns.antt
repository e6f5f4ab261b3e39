-- ===== src/Msi/Roles/Owns.antt =====
-- Two processes that are started at any time: what every run keeps.
use mathlib.Core.Path.{subst}
use lkp.Msi.Roles.{
  Process, Move, Runs, ClientAt, begun, awaiting, trying, refused, joined, retrying, choosing,
  asking, waiting, in_menu, here, then_, listen, accept, expect, serve, receive_info, connect_fails,
  connect, set_first, set_second, reconnect, ask, wait, send_info, go_on, first, second,
}
use lkp.Msi.Roles.Ordered.{left, move-left}
use lkp.Prelude.{ℕ, Bool, true, ◌≡◌, ◌≤◌, ◌+◌, ◌⊎◌, inl, inr, refl, arith}

-- The machine number where the client is.
abbrev pub Numbered : ClientAt → ℕ → Bool → Bool → Type 0
Numbered trying k m s = k ≡ 0
Numbered refused k m s = k ≡ 0
Numbered joined k m s = k ≡ 0
Numbered retrying k m s = k ≡ 1
Numbered choosing k m s = (k ≡ 1) ⊎ (k ≡ 2)
Numbered asking k m s = k ≡ 1
Numbered waiting k m s = k ≡ 2
Numbered in_menu k m s = ((k ≡ 1) × (s ≡ true)) ⊎ ((k ≡ 2) × (m ≡ true))

-- That of `x` has a region of its own or from the other's message, which machine 1 sends.
pub record Owns (x y : Process) : Type 0 where
  pub numbered : Numbered x.client x.mch_num x.mapped x.info_sent
  pub region : x.mapped ≡ true → (x.mch_num ≡ 1) ⊎ (y.info_sent ≡ true)
  pub awaits : x.server ≡ awaiting → x.mch_num ≡ 2
  pub informs : x.info_sent ≡ true → x.mch_num ≡ 1

Numbered-mapped : (c : ClientAt) (k : ℕ) (m s : Bool) → Numbered c k m s → Numbered c k true s
Numbered-mapped trying k m s h = h
Numbered-mapped refused k m s h = h
Numbered-mapped joined k m s h = h
Numbered-mapped retrying k m s h = h
Numbered-mapped choosing k m s h = h
Numbered-mapped asking k m s h = h
Numbered-mapped waiting k m s h = h
Numbered-mapped in_menu k m s (inl h) = inl h
Numbered-mapped in_menu k m s (inr (h, q)) = inr (h, refl)

pub client-Numbered :
    (x y : Process) (c : ClientAt)
    → x.client ≡ c
    → Owns x y
    → Numbered c x.mch_num x.mapped x.info_sent
client-Numbered x y c e o = subst (λ c. Numbered c x.mch_num x.mapped x.info_sent) e o.numbered

move-Owns : (x y x' : Process) → Move x y x' → Owns x y → Owns x' y
move-Owns x y x' (listen e) o = record {
  numbered = o.numbered;
  region = o.region;
  awaits = λ h. absurd (ground (arith, h));
  informs = o.informs;
}
move-Owns x y x' (accept e k) o = record {
  numbered = o.numbered;
  region = o.region;
  awaits = λ h. absurd (ground (arith, h));
  informs = o.informs;
}
move-Owns x y x' (expect e k) o = record {
  numbered = o.numbered;
  region = o.region;
  awaits = λ h. k;
  informs = o.informs;
}
move-Owns x y x' (serve e k) o = record {
  numbered = o.numbered;
  region = o.region;
  awaits = λ h. absurd (ground (arith, h));
  informs = o.informs;
}
move-Owns x y x' (receive_info e k) o = record {
  numbered = Numbered-mapped x.client x.mch_num x.mapped x.info_sent o.numbered;
  region = λ h. inr k;
  awaits = λ h. absurd (ground (arith, h));
  informs = o.informs;
}
move-Owns x y x' (connect_fails e k) o = record {
  numbered = client-Numbered x y trying e o;
  region = o.region;
  awaits = o.awaits;
  informs = o.informs;
}
move-Owns x y x' (connect e k) o = record {
  numbered = client-Numbered x y trying e o;
  region = o.region;
  awaits = o.awaits;
  informs = o.informs;
}
move-Owns x y x' (set_first e) o = record {
  numbered = refl;
  region = λ h. inl refl;
  awaits = λ h. absurd (omega (arith, client-Numbered x y refused e o, o.awaits h));
  informs = λ h. refl;
}
move-Owns x y x' (set_second e) o = record {
  numbered = inr refl;
  region = λ h. elim (o.region h) [
    | inl q ↦ absurd (omega (arith, q, client-Numbered x y joined e o))
    | inr q ↦ inr q
  ];
  awaits = λ h. refl;
  informs = λ h. absurd (omega (arith, o.informs h, client-Numbered x y joined e o));
}
move-Owns x y x' (reconnect e k) o = record {
  numbered = inl (client-Numbered x y retrying e o);
  region = o.region;
  awaits = o.awaits;
  informs = o.informs;
}
move-Owns x y x' (ask e k) o = record {
  numbered = k;
  region = o.region;
  awaits = o.awaits;
  informs = o.informs;
}
move-Owns x y x' (wait e k) o = record {
  numbered = elim (client-Numbered x y choosing e o) [ inl q ↦ absurd (k q) | inr q ↦ q ];
  region = o.region;
  awaits = o.awaits;
  informs = o.informs;
}
move-Owns x y x' (send_info e) o = record {
  numbered = inl (client-Numbered x y asking e o, refl);
  region = λ h. inl (client-Numbered x y asking e o);
  awaits = o.awaits;
  informs = λ h. client-Numbered x y asking e o;
}
move-Owns x y x' (go_on e k) o = record {
  numbered = inr (client-Numbered x y waiting e o, k);
  region = o.region;
  awaits = o.awaits;
  informs = o.informs;
}

-- A message that was sent stays sent.
move-sent : (x y x' : Process) → Move x y x' → x.info_sent ≡ true → x'.info_sent ≡ true
move-sent x y x' (send_info e) h = refl
move-sent x y x' (listen e) h = h
move-sent x y x' (accept e k) h = h
move-sent x y x' (expect e k) h = h
move-sent x y x' (serve e k) h = h
move-sent x y x' (receive_info e k) h = h
move-sent x y x' (connect_fails e k) h = h
move-sent x y x' (connect e k) h = h
move-sent x y x' (set_first e) h = h
move-sent x y x' (set_second e) h = h
move-sent x y x' (reconnect e k) h = h
move-sent x y x' (ask e k) h = h
move-sent x y x' (wait e k) h = h
move-sent x y x' (go_on e k) h = h

peer-Owns : (x y y' : Process) → Move y x y' → Owns x y → Owns x y'
peer-Owns x y y' m o = record {
  numbered = o.numbered;
  region = λ h. elim (o.region h) [ inl q ↦ inl q | inr q ↦ inr (move-sent y x y' m q) ];
  awaits = o.awaits;
  informs = o.informs;
}

pub steps-Owns :
    (n : ℕ) (x y : Process)
    → Runs begun begun n x y
    → Owns x y × Owns y x × (n + (left x + left y) ≤ 18)
steps-Owns n x y here =
    let o : Owns begun begun = record {
      numbered = refl;
      region = λ h. absurd (ground (arith, h));
      awaits = λ h. absurd (ground (arith, h));
      informs = λ h. absurd (ground (arith, h));
    } in
    (o, o, omega arith)
steps-Owns n x y (then_ {x' = x'} {y' = y'} r (first m)) =
    let (o, p, l) = steps-Owns _ x' y' r in
    (move-Owns x' y' x m o, peer-Owns y' x' x m p, omega (arith, l, move-left x' y' x m))
steps-Owns n x y (then_ {x' = x'} {y' = y'} r (second m)) =
    let (o, p, l) = steps-Owns _ x' y' r in
    (peer-Owns x' y' y m o, move-Owns y' x' y m p, omega (arith, l, move-left y' x' y m))
