-- ===== src/Http/Negotiate/Tests.antt =====
-- Runs of the negotiation of static files, and its theorems at concrete headers and paths.
use php_fpm_ng.Base.{
  ◌≡◌, refl, true, false, none, some, List, [], ◌∷◌, ◌++◌, map, codes, equal_case, starts_with,
}
use php_fpm_ng.Base.Tokens.{joined}
use php_fpm_ng.Http.Host.{trim_front, trim_back}
use php_fpm_ng.Http.Negotiate.{accepts, Rule, cache_control_for}
use php_fpm_ng.Http.Negotiate.Items.{Item, item_text, AllItems, wanted}
use php_fpm_ng.Http.Negotiate.Accepts.{accepts-items}

-- `br;q=1.0` and ` gzip ; Q=0.00 `.
abbrev brotli : Item
brotli = record {
  front = [];
  name = codes "br";
  back = [];
  weight =
      some (record {
        front = [];
        letter = b'q';
        whole = b'1';
        fraction = some (codes "0");
        back = [];
      });
}

abbrev no_gzip : Item
no_gzip = record {
  front = codes " ";
  name = codes "gzip";
  back = codes " ";
  weight = some (record {
    front = codes " ";
    letter = b'Q';
    whole = b'0';
    fraction = some (codes "00");
    back = codes " ";
  });
}

items-AllItems : AllItems (brotli ∷ no_gzip ∷ [])
items-AllItems = (
  record {
    front = tt;
    name = (refl, (refl, tt));
    some_byte = λ e. cc;
    back = tt;
    weight = record { front = tt; letter = refl; whole = refl; fraction = (refl, tt); back = tt };
  },
  (
    record {
      front = (refl, tt);
      name = (refl, (refl, (refl, (refl, tt))));
      some_byte = λ e. cc;
      back = (refl, tt);
      weight = record {
        front = (refl, tt);
        letter = refl;
        whole = refl;
        fraction = (refl, (refl, tt));
        back = (refl, tt);
      };
    },
    tt,
  ),
)

accept_runs :
    (accepts (some (codes "br;q=1.0, gzip ; Q=0.00 ")) (codes "gzip") ≡ false)
    × (accepts (some (codes "br;q=1.0, gzip ; Q=0.00 ")) (codes "BR") ≡ true)
    × (accepts (some (codes "gzip;x=1;q=0,br")) (codes "gzip") ≡ false)
    × (accepts (some (codes "gzip;q=0.01")) (codes "gzip") ≡ true)
    × (accepts (some (codes "*")) (codes "gzip") ≡ false)
    × (accepts (some []) (codes "gzip") ≡ false)
    × (accepts none (codes "gzip") ≡ false)
unfolding accepts equal_case trim_back trim_front
accept_runs = (refl, refl, refl, refl, refl, refl, refl)

accepts-items_example :
    accepts (some (item_text brotli ++ joined b',' (map item_text (no_gzip ∷ [])))) (codes "gzip")
    ≡ wanted (codes "gzip") (brotli ∷ no_gzip ∷ [])
accepts-items_example = accepts-items (codes "gzip") brotli (no_gzip ∷ []) items-AllItems

abbrev rules : List Rule
rules =
    record { key = codes "/"; value = codes "no-cache" }
    ∷ record { key = codes "/img/"; value = codes "immutable" }
    ∷ record { key = codes "/img/"; value = codes "private" }
    ∷ []

rule_runs :
    (cache_control_for rules (codes "/img/a") ≡ some (codes "immutable"))
    × (cache_control_for rules (codes "/img") ≡ some (codes "no-cache"))
    × (cache_control_for rules (codes "x") ≡ none)
unfolding cache_control_for starts_with
rule_runs = (refl, refl, refl)
