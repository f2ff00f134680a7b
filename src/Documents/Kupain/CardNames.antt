-- ===== src/Documents/Kupain/CardNames.antt =====
-- internal/erp/hasavshevet/kupain.go: the card's name in F17, from the codes and the operator's
-- overrides.
use digi_erp_connector.Base.{
  Text, text_eq, codes, not, ◌&&◌, Option, none, some, List, [], ◌∷◌, is_empty, if◌then◌else◌,
}
use digi_erp_connector.Base.Dict
use digi_erp_connector.Base.Int.{ℤ, pos, negsuc}
use digi_erp_connector.Base.Decimal.{format, parse_int64}
use digi_erp_connector.Documents.Encoding.{Unicode, trim_space}
use digi_erp_connector.Documents.Kupain.Tables.{default_issuer_card_names, default_brand_card_names}

-- ReceiptCardNames
pub record ReceiptCardNames : Type 0 where
  pub issuer : List (Text × Text)
  pub brand : List (Text × Text)

-- The warnings that cardName gives; the codes are those it was asked for.
pub data Warning : Type 0 where
  no_card_code : Warning
  no_card_name : Text → Text → Warning

canonical_number : Text → Option ℤ → Text
canonical_number code none = code
canonical_number code (some (negsuc n)) = code
canonical_number code (some (pos n)) = format n

or_default : Option Text → Text
or_default none = []
or_default (some name) = name

module _ (u : Unicode) where
  unfoldable pub canonical_card_code : Text → Text
  unfolding canonical_number
  canonical_card_code code = let c = trim_space u code in canonical_number c (parse_int64 c)

  -- The loop over the overrides
  unfoldable pub overridden : Text → List (Text × Text) → Option Text
  unfolding canonical_card_code
  overridden code [] = none
  overridden code ((k, v) ∷ rest) =
      let later = overridden code rest in
      if not (is_empty v) && text_eq (canonical_card_code k) code then some v else later

  builtin_name : Text → List (Text × Text) → Option Text → Text
  unfolding or_default
  builtin_name code builtin (some v) = v
  builtin_name code builtin none = or_default (Dict.lookup code builtin)

  unfoldable pub lookup_card_name : Text → List (Text × Text) → List (Text × Text) → Text
  unfolding builtin_name overridden
  lookup_card_name code overrides builtin =
      let c = canonical_card_code code in
      if is_empty c then [] else builtin_name c builtin (overridden c overrides)

  -- cardName: the name, the wire field it comes from, and the warning if there is one.
  unfoldable pub card_name : Text → Text → ReceiptCardNames → Text × Text × List Warning
  unfolding lookup_card_name
  card_name issuer brand names =
      let i = trim_space u issuer in
      let b = trim_space u brand in
      let by_issuer = lookup_card_name i names.issuer default_issuer_card_names in
      let by_brand = lookup_card_name b names.brand default_brand_card_names in
      if not (is_empty by_issuer)
      then (by_issuer, codes "cardIssuer", [])
      else if not (is_empty by_brand)
      then (by_brand, codes "cardBrand", [])
      else if is_empty i && is_empty b
      then ([], codes "cardBrand", no_card_code ∷ [])
      else ([], codes "cardBrand", no_card_name i b ∷ [])
