-- ===== src/Tests/Routes.antt =====
-- runtime/router.py at the sample.
use lexicon_mcp.Prelude.{
  take, ℕ, String, Bool, true, false, List, [], ◌∷◌, ◌++◌, Option, none, some, ◌≡◌, refl, Result,
  ok, err, contains, nat_eq, lookup, Dict, arith,
}
use lexicon_mcp.Json.{Value, str}
use lexicon_mcp.Manifest.Scalars.{normalize_language}
use lexicon_mcp.Activation.{ActivationComponent, Activation}
use lexicon_mcp.Store.{Store}
use lexicon_mcp.Router.{
  Availability, Answer, LanguageCoverage, Connections, answer, connect, availability,
}
use lexicon_mcp.Router.Queue.{IsSound}
use lexicon_mcp.Router.Cache.{connect_lem}
use lexicon_mcp.Router.Recency.{latest_first, first_uses, connect_each, connect_each_lem}
use lexicon_mcp.Router.Reasons.{Told, availability_holds}
use lexicon_mcp.Tests.Samples.{words_activation, sample_file, ones, twos}

abbrev pub words_store : Store Value
words_store = record { objects = (ones, sample_file ones) ∷ (twos, sample_file twos) ∷ [] }

abbrev pub no_connections : Connections
no_connections = record { opened = []; made = 0; closed = []; coverage = none }

abbrev pub always : String → Result (Unit {0})
always path = ok tt

abbrev pub english_coverage : LanguageCoverage
english_coverage = record {
  language = "en";
  term_count = 10;
  entry_count = 10;
  sense_count = 20;
  translation_count = 5;
  relation_count = 5;
  has_semantic = true;
  has_pronunciation = false;
  has_wordplay = false;
}

abbrev pub catalogue : ℕ → Result (List LanguageCoverage)
catalogue h = ok (english_coverage ∷ [])

abbrev base : ActivationComponent
base = record { id = "base"; sha256 = ones; path = "base.sqlite"; size = 7 }

abbrev words : ActivationComponent
words = record { id = "words"; sha256 = twos; path = "words/en.sqlite"; size = 7 }

abbrev pub routed : Activation
routed = words_activation "2025"

-- A router that holds one connection at most.
abbrev base_open : Connections
base_open = record { opened = (ones, 0) ∷ []; made = 1; closed = []; coverage = none }

abbrev words_open : Connections
words_open = record { opened = (twos, 1) ∷ []; made = 2; closed = 0 ∷ []; coverage = none }

base_connected :
    connect routed words_store 1 always catalogue base no_connections ≡ (ok 0, base_open)
unfolding lexicon_mcp.Text.sha256_re lexicon_mcp.Store.path_for lexicon_mcp.Store.open_path
    lexicon_mcp.Router.evict lexicon_mcp.Router.keep_open lexicon_mcp.Router.connect
base_connected = refl

words_connected : connect routed words_store 1 always catalogue words base_open ≡ (ok 1, words_open)
unfolding lexicon_mcp.Text.sha256_re lexicon_mcp.Store.path_for lexicon_mcp.Store.open_path
    lexicon_mcp.Router.evict lexicon_mcp.Router.keep_open lexicon_mcp.Router.connect
words_connected = refl

connect_lem_example :
    IsSound 1 base_open
    × (lookup ones base_open.opened ≡ some 0)
    × (contains base_open.closed 0 ≡ false)
connect_lem_example =
    connect_lem routed words_store 1 always catalogue base no_connections base_open 0 (omega arith)
      (record {
        bounded = omega arith;
        packs_once = tt;
        handles_once = tt;
        handles_made = λ h m. absurd cc;
      })
      base_connected

-- The base pack, the words and the base pack again, at two connections at most.
abbrev history : List ActivationComponent
history = base ∷ words ∷ base ∷ []

abbrev both_open : Connections
both_open = record { opened = (twos, 1) ∷ (ones, 0) ∷ []; made = 2; closed = []; coverage = none }

history_ran :
    connect_each routed words_store 2 always catalogue history no_connections
    ≡ (ok (0 ∷ 1 ∷ 0 ∷ []), both_open)
unfolding lexicon_mcp.Prelude.erase lexicon_mcp.Text.sha256_re lexicon_mcp.Store.path_for
    lexicon_mcp.Store.open_path lexicon_mcp.Router.evict lexicon_mcp.Router.keep_open
    lexicon_mcp.Router.connect
history_ran = refl

connect_each_lem_example :
    latest_first both_open.opened ≡ take 2 (first_uses (ones ∷ twos ∷ ones ∷ []))
connect_each_lem_example =
    connect_each_lem routed words_store 2 always catalogue history no_connections both_open
      (0 ∷ 1 ∷ 0 ∷ []) (omega arith) refl history_ran

vectors_asked :
    availability routed words_store 1 always catalogue "semantic" "EN" no_connections ≡ (
      ok (answer "semantic" "en" Availability.capability_not_installed),
      record base_open { coverage = some (("en", english_coverage) ∷ []) },
    )
unfolding lexicon_mcp.Text.sha256_re lexicon_mcp.Text.language_re lexicon_mcp.Text.lower
    lexicon_mcp.Manifest.Scalars.normalize_language lexicon_mcp.Activation.component
    lexicon_mcp.Activation.component_for lexicon_mcp.Store.path_for lexicon_mcp.Store.open_path
    lexicon_mcp.Router.offers lexicon_mcp.Router.evict lexicon_mcp.Router.keep_open
    lexicon_mcp.Router.connect lexicon_mcp.Router.core_component lexicon_mcp.Router.load_coverage
    lexicon_mcp.Router.read_coverage lexicon_mcp.Router.availability lexicon_mcp.Prelude.insert
vectors_asked = refl

english_normalized : normalize_language (str "EN") ≡ ok "en"
unfolding lexicon_mcp.Text.language_re lexicon_mcp.Text.lower
    lexicon_mcp.Manifest.Scalars.normalize_language
english_normalized = refl

availability_holds_example :
    Told routed words_store 1 always catalogue "semantic" "en"
      (answer "semantic" "en" Availability.capability_not_installed)
      (record base_open { coverage = some (("en", english_coverage) ∷ []) })
availability_holds_example =
    availability_holds routed words_store 1 always catalogue "semantic" "EN" "en" no_connections
      (record base_open { coverage = some (("en", english_coverage) ∷ []) })
      (answer "semantic" "en" Availability.capability_not_installed) english_normalized
      vectors_asked
