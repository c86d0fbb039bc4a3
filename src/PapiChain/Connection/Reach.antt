-- ===== src/PapiChain/Connection/Reach.antt =====
-- What holds of a connection of packages/chain/papi-chain/src/index.ts in every reachable state.
use predictor_common.Prelude.{
  ℕ, ◌+◌, ◌<◌, ◌≤◌, ◌≡◌, refl, ◌⊎◌, inl, inr, ◌≢◌, Bool, false, none, some, List, [], ◌∷◌, ◌==◌,
  ==_iff, All, Bool-cases, Option-cases, arith,
}
use predictor_common.PapiChain.Connection.{
  Transport, ws, smoldot, ChainBase, fresh, ws_provider, smoldot_provider, provider, create_client,
  connect, on_status_changed, put_if, disconnect, typed_api,
}

-- A callback holds this generation.
abbrev pub Holds : ℕ → List ℕ → Type 0
Holds g [] = ⊥
Holds g (h ∷ hs) = (g ≡ h) ⊎ Holds g hs

-- The calls of a user of the class, and a provider calling its status callback at any later time.
pub data Step (t : Transport) (c : ChainBase) : ChainBase → Type 0 where
  uses : Step t c (connect t c)
  types : Step t c (typed_api t c)
  drops : Step t c (disconnect c)
  reports : (g status : ℕ) → Holds g c.callbacks → Step t c (on_status_changed t g status c)

pub data Reach (t : Transport) : ChainBase → Type 0 where
  start : Reach t fresh
  next : {c d : ChainBase} → Reach t c → Step t c d → Reach t d

-- The generation of a callback is below the current one where no client is live.
abbrev pub Superseded : ChainBase → Type 0
Superseded c = (c.client ≡ none) → All (λ g. g < c.generation) c.callbacks

pub record IsSound (t : Transport) (c : ChainBase) : Type 0 where
  pub old : All (λ g. g ≤ c.generation) c.callbacks
  pub superseded : Superseded c
  pub no_status : c.client ≡ none → c.last_status ≡ none
  pub clients : c.created ≡ put_if c.client c.destroyed
  pub light_clients : c.started ≡ put_if c.light_client c.terminated
  pub api_live : (a : ℕ) → c.api ≡ some a → c.client ≡ some a
  pub light_only : c.client ≡ none → c.light_client ≡ none
  pub light_status : t ≡ smoldot → (c.callbacks ≡ []) × (c.last_status ≡ none)

All-le_suc : (n : ℕ) (l : List ℕ) → All (λ g. g ≤ n) l → All (λ g. g ≤ n + 1) l
All-le_suc n [] h = tt
All-le_suc n (g ∷ l) (h, hs) = (omega arith, All-le_suc n l hs)

All-lt_suc : (n : ℕ) (l : List ℕ) → All (λ g. g ≤ n) l → All (λ g. g < n + 1) l
All-lt_suc n [] h = tt
All-lt_suc n (g ∷ l) (h, hs) = (omega arith, All-lt_suc n l hs)

-- Of all that a list holds.
lt_of_Holds : (g n : ℕ) (l : List ℕ) → All (λ h. h < n) l → Holds g l → g < n
lt_of_Holds g n [] a h = absurd h
lt_of_Holds g n (x ∷ l) (a, ls) h = elim h [
  | inl e ↦ rw e a
  | inr later ↦ lt_of_Holds g n l ls later
]

fresh-IsSound : (t : Transport) → IsSound t fresh
fresh-IsSound t = record {
  old = tt;
  superseded = λ _. tt;
  no_status = λ _. refl;
  clients = refl;
  light_clients = refl;
  api_live = λ a e. cc;
  light_only = λ _. refl;
  light_status = λ _. (refl, refl);
}

module _ {t : Transport} {c : ChainBase} (s : IsSound t c) where
  disconnect-IsSound : IsSound t (disconnect c)
  unfolding disconnect
  disconnect-IsSound = record {
    old = All-le_suc c.generation c.callbacks s.old;
    superseded = λ _. All-lt_suc c.generation c.callbacks s.old;
    no_status = λ _. refl;
    clients = s.clients;
    light_clients = s.light_clients;
    api_live = λ a e. cc;
    light_only = λ _. refl;
    light_status = λ e. ((s.light_status e).0, refl);
  }

  connect-ws :
      (forwards : Bool)
      → t ≡ ws forwards
      → c.client ≡ none
      → IsSound t (create_client (ws_provider c))
  connect-ws forwards is_ws e = record {
    old = (omega arith, All-le_suc c.generation c.callbacks s.old);
    superseded = λ h. cc;
    no_status = λ h. cc;
    clients = cc (s.clients, e);
    light_clients = s.light_clients;
    api_live = λ a h. cc (s.api_live a h);
    light_only = λ h. cc;
    light_status = λ h. cc;
  }

  connect-smoldot : t ≡ smoldot → c.client ≡ none → IsSound t (create_client (smoldot_provider c))
  connect-smoldot is_light e = record {
    old = s.old;
    superseded = λ h. cc;
    no_status = λ h. cc;
    clients = cc (s.clients, e);
    light_clients = cc (s.light_clients, s.light_only e);
    api_live = λ a h. cc (s.api_live a h);
    light_only = λ h. cc;
    light_status = s.light_status;
  }

ws≢smoldot : {forwards : Bool} → ws forwards ≢ smoldot
ws≢smoldot e = cc

provider-IsSound :
    (t : Transport) (c : ChainBase)
    → IsSound t c
    → c.client ≡ none
    → IsSound t (create_client (provider t c))
provider-IsSound (ws forwards) c s e = connect-ws s forwards refl e
provider-IsSound smoldot c s e = connect-smoldot s refl e

connect-IsSound : (t : Transport) (c : ChainBase) → IsSound t c → IsSound t (connect t c)
unfolding connect
connect-IsSound t c s = elim (Option-cases c.client) [
  | inl idle ↦ rw (idle, connect) (provider-IsSound t c s idle)
  | inr (live, e) ↦ rw (e, connect) s
]

provider_api : (t : Transport) (c : ChainBase) → (create_client (provider t c)).api ≡ c.api
provider_api (ws forwards) c = refl
provider_api smoldot c = refl

-- The typed api is made over the client that is then live.
with_api-IsSound :
    (t : Transport) (c : ChainBase) → IsSound t c → IsSound t (record c { api = c.client })
with_api-IsSound t c s = record {
  old = s.old;
  superseded = s.superseded;
  no_status = s.no_status;
  clients = s.clients;
  light_clients = s.light_clients;
  api_live = λ a e. e;
  light_only = s.light_only;
  light_status = s.light_status;
}

typed_api-IsSound : (t : Transport) (c : ChainBase) → IsSound t c → IsSound t (typed_api t c)
unfolding typed_api
typed_api-IsSound t c s = elim (Option-cases c.api) [
  | inl missing ↦ rw (missing, typed_api) (with_api-IsSound t (connect t c) (connect-IsSound t c s))
  | inr (a, e) ↦ rw (e, typed_api) s
]

-- A report changes the status alone, and only while a client is live over the web socket.
report-IsSound :
    (t : Transport) (c : ChainBase) (g status : ℕ)
    → Holds g c.callbacks
    → IsSound t c
    → IsSound t (on_status_changed t g status c)
unfolding on_status_changed
report-IsSound (ws forwards) c g status held s = elim (Bool-cases (g == c.generation)) [
  | inr late ↦ rw (late, on_status_changed) s
  | inl current ↦
      rw (current, on_status_changed)
        (record {
          old = s.old;
          superseded = s.superseded;
          no_status = λ idle.
              let low = lt_of_Holds g c.generation c.callbacks (s.superseded idle) held in
              absurd (omega (arith, (==_iff g c.generation).0 current));
          clients = s.clients;
          light_clients = s.light_clients;
          api_live = s.api_live;
          light_only = s.light_only;
          light_status = λ e. cc;
        })
]
report-IsSound smoldot c g status held s = absurd (rw (s.light_status refl).0 at held)

Step-IsSound : {t : Transport} {c d : ChainBase} → Step t c d → IsSound t c → IsSound t d
Step-IsSound {t} {c} uses s = connect-IsSound t c s
Step-IsSound {t} {c} types s = typed_api-IsSound t c s
Step-IsSound drops s = disconnect-IsSound s
Step-IsSound {t} {c} (reports g status held) s = report-IsSound t c g status held s

-- In every state that calls of `client`, `api` and `disconnect` and late or current status callbacks
-- lead to: a status is recorded only while a client is live, and never under smoldot; each client that
-- was made was destroyed once, but for the live one, and so each light client; a cached typed api is
-- that of the live client.
pub reach-IsSound : {t : Transport} {c : ChainBase} → Reach t c → IsSound t c
reach-IsSound {t} start = fresh-IsSound t
reach-IsSound (next r st) = Step-IsSound st (reach-IsSound r)

-- What further calls and callbacks make of a connection.
pub data After (t : Transport) (c : ChainBase) : ChainBase → Type 0 where
  here : After t c c
  later : {d e : ChainBase} → After t c d → Step t d e → After t c e

connect-generation : (t : Transport) (c : ChainBase) → c.generation ≤ (connect t c).generation
unfolding connect
connect-generation t c = elim (Option-cases c.client) [
  | inl idle ↦ rw (idle, connect) (provider-generation t)
  | inr (live, e) ↦ rw (e, connect) (omega arith)
]
  where
    provider-generation : (t : Transport) → c.generation ≤ (create_client (provider t c)).generation
    provider-generation (ws forwards) = omega arith
    provider-generation smoldot = omega arith

typed_api-generation : (t : Transport) (c : ChainBase) → c.generation ≤ (typed_api t c).generation
unfolding typed_api
typed_api-generation t c = elim (Option-cases c.api) [
  | inl missing ↦ rw (missing, typed_api) (connect-generation t c)
  | inr (a, e) ↦ rw (e, typed_api) (omega arith)
]

report-generation :
    (t : Transport) (g status : ℕ) (c : ChainBase)
    → (on_status_changed t g status c).generation ≡ c.generation
unfolding on_status_changed
report-generation (ws forwards) g status c = elim (Bool-cases (g == c.generation)) [
  | inr late ↦ rw (late, on_status_changed) refl
  | inl current ↦ rw (current, on_status_changed) refl
]
report-generation smoldot g status c = elim (Bool-cases (g == c.generation)) [
  | inr late ↦ rw (late, on_status_changed) refl
  | inl current ↦ rw (current, on_status_changed) refl
]

-- The generation never goes back.
Step-generation : {t : Transport} {c d : ChainBase} → Step t c d → c.generation ≤ d.generation
unfolding disconnect
Step-generation {t} {c} uses = connect-generation t c
Step-generation {t} {c} types = typed_api-generation t c
Step-generation drops = omega arith
Step-generation {t} {c} (reports g status held) = omega (arith, report-generation t g status c)

After-generation : {t : Transport} {c d : ChainBase} → After t c d → c.generation ≤ d.generation
After-generation here = omega arith
After-generation (later r st) = omega (arith, After-generation r, Step-generation st)

-- After a disconnect in any reachable state, whatever calls follow it, a new connection included, and
-- whatever callbacks: a callback of any provider made before the disconnect changes nothing.
pub late_report :
    {t : Transport} {c d : ChainBase} (g status : ℕ)
    → Reach t c
    → Holds g c.callbacks
    → After t (disconnect c) d
    → on_status_changed t g status d ≡ d
unfolding on_status_changed
late_report {t} {c} {d} g status r held after =
    let s = disconnect-IsSound (reach-IsSound r) in
    let low =
      lt_of_Holds g (disconnect c).generation (disconnect c).callbacks
        (s.superseded (unfold disconnect in refl)) (unfold disconnect in held) in
    let above = After-generation after in
    let off : (g == d.generation) ≡ false = ground arith in rw (off, on_status_changed)
