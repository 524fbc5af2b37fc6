-- ===== src/Scanner/Model.antt =====
-- What a collection and a queue that never fail do, a list implementation that meets it, and the
-- answers of a node on a history.

use saros_dlmm_indexer.Base.{
  ℕ, zero, suc, ◌≤◌, ◌≡◌, refl, ap, Bool, false, ◌||◌, ◌==◌, leb, Option, none, some, List, [], ◌∷◌,
  ◌++◌, map, take, if◌then◌else◌, arith,
}
use saros_dlmm_indexer.Text.{Text}
use saros_dlmm_indexer.Schemas.{TransactionEvent}
use saros_dlmm_indexer.Store.World.{ok, err, rpc_failed}
use saros_dlmm_indexer.Scanner.{
  ConfirmedSignatureInfo, SignaturesOptions, Node, Stored, ProcessTransaction, Services,
}
use saros_dlmm_indexer.Scanner.Order.{sort, filter, first}

-- An `_id` above those of the documents.
unfoldable pub next_oid : List Stored → ℕ
next_oid [] = 0
next_oid (d ∷ ds) = let n = next_oid ds in if leb n d.oid then suc d.oid else n

-- New documents get growing ids.
unfoldable pub number : ℕ → List TransactionEvent → List Stored
number n [] = []
number n (e ∷ es) = record { oid = n; event = e } ∷ number (suc n) es

unfoldable pub mem : ℕ → List ℕ → Bool
mem n [] = false
mem n (m ∷ ms) = (n == m) || mem n ms

unfoldable pub patch : List ℕ → (TransactionEvent → TransactionEvent) → Stored → Stored
patch ids f d = if mem d.oid ids then record d { event = f d.event } else d

abbrev pub events : List Stored → List TransactionEvent
events ds = map (λ d. d.event) ds

pub events-number : (n : ℕ) (es : List TransactionEvent) → events (number n es) ≡ es
unfolding number
events-number n [] = refl
events-number n (e ∷ es) = ap (◌∷◌ e) (events-number (suc n) es)

-- The documented effect of each call, where it does not fail.
pub record Working (services : Services) : Type 1 where
  pub docs : services.State → List Stored
  pub jobs : services.State → List ProcessTransaction
  pub find_one_lem :
      (le : Stored → Stored → Bool) (s : services.State)
      → services.find_one le s ≡ ok (first (sort le (docs s)))
  pub find_lem :
      (p : Stored → Bool) (le : Stored → Stored → Bool) (n : ℕ) (s : services.State)
      → services.find p le n s ≡ ok (take n (sort le (filter p (docs s))))
  pub insert_many_lem :
      (es : List TransactionEvent) (s : services.State)
      → docs (services.insert_many es s).1 ≡ docs s ++ number (next_oid (docs s)) es
  pub update_many_lem :
      (ids : List ℕ) (f : TransactionEvent → TransactionEvent) (s : services.State)
      → (docs (services.update_many ids f s).1 ≡ map (patch ids f) (docs s))
        × (jobs (services.update_many ids f s).1 ≡ jobs s)
  pub add_bulk_lem :
      (js : List ProcessTransaction) (s : services.State)
      → (services.add_bulk js s).0 ≡ ok tt
        × (docs (services.add_bulk js s).1 ≡ docs s)
        × (jobs (services.add_bulk js s).1 ≡ jobs s ++ js)

abbrev pub listed : Services
listed = record {
  State = List Stored × List ProcessTransaction;
  find_one = λ le s. ok (first (sort le s.0));
  find = λ p le n s. ok (take n (sort le (filter p s.0)));
  insert_many = λ es s. (ok tt, (s.0 ++ number (next_oid s.0) es, s.1));
  update_many = λ ids f s. (ok tt, (map (patch ids f) s.0, s.1));
  add_bulk = λ js s. (ok tt, (s.0, s.1 ++ js));
}

abbrev pub listed-Working : Working listed
listed-Working = record {
  docs = λ s. s.0;
  jobs = λ s. s.1;
  find_one_lem = λ le s. refl;
  find_lem = λ p le n s. refl;
  insert_many_lem = λ es s. refl;
  update_many_lem = λ ids f s. (refl, refl);
  add_bulk_lem = λ js s. (refl, refl, refl);
}

-- `older` is the part of a history, newest first, that stands behind a cursor.
abbrev pub Behind : List ConfirmedSignatureInfo → Option Text → List ConfirmedSignatureInfo → Type 0
Behind history none older = history ≡ older
Behind history (some s) older =
    (newer : List ConfirmedSignatureInfo) × (sig : ConfirmedSignatureInfo) × (history
      ≡ newer ++ (sig ∷ older))
    × (sig.signature ≡ s)

-- The documented answers of `getSignaturesForAddress` on a history, newest first.
pub record Serves (history : List ConfirmedSignatureInfo) (node : Node) : Type 0 where
  pub before_page :
      (n : ℕ) (before : Option Text) (older : List ConfirmedSignatureInfo)
      → Behind history before older
      → node (record { limit = n; before = before; until = none }) ≡ ok (take n older)
  pub until_page :
      (n : ℕ) (newer older : List ConfirmedSignatureInfo) (sig : ConfirmedSignatureInfo)
      → history ≡ newer ++ (sig ∷ older)
      → node (record { limit = n; before = none; until = some sig.signature }) ≡ ok (take n newer)

abbrev pub IsDown : Node → Type 0
IsDown node = (o : SignaturesOptions) → node o ≡ err rpc_failed

-- Calls of the node in order, each of which fails or is served, at least `n` of them served before
-- anything else is known of them.
pub data Rounds (history : List ConfirmedSignatureInfo) : ℕ → List Node → Type 0 where
  enough : (nodes : List Node) → Rounds history zero nodes
  served :
      {n : ℕ} {node : Node} {nodes : List Node}
      → Serves history node
      → Rounds history n nodes
      → Rounds history (suc n) (node ∷ nodes)
  failed :
      {n : ℕ} {node : Node} {nodes : List Node}
      → IsDown node
      → Rounds history n nodes
      → Rounds history n (node ∷ nodes)

-- Fewer served calls are there too.
pub fewer :
    {history : List ConfirmedSignatureInfo} {n : ℕ} {nodes : List Node} (m : ℕ)
    → m ≤ n
    → Rounds history n nodes
    → Rounds history m nodes
fewer m le (enough nodes) = let e : zero ≡ m = omega (arith, le) in rw (← e) (enough nodes)
fewer zero le (served h r) = enough _
fewer (suc m) le (served h r) = served h (fewer m (omega (arith, le)) r)
fewer m le (failed h r) = failed h (fewer m le r)
