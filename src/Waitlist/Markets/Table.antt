-- ===== src/Waitlist/Markets/Table.antt =====
-- `MARKETS` of landing-page/lib/markets.ts.
use fuel_cap.Base.{String, none, some, [], ◌∷◌, Dict}
use fuel_cap.Waitlist.Markets.Types.{LanguageCode, miles, kilometres, litres, gallons, Market}

abbrev pub usa : Market
usa = record {
  id = "usa";
  slug = "usa";
  name = "United States";
  flag = "🇺🇸";
  language = LanguageCode.en;
  locale = "en-US";
  currency = "USD";
  currency_symbol = "$";
  distance_unit = miles;
  volume_unit = gallons;
  fuel_word = "gas";
  data_source = "U.S. Energy Information Administration (EIA)";
  station_count = "~145,000";
  postal_placeholder = "10001";
  postal_pattern = "^\\d{5}(?:-\\d{4})?$";
  sample_refund_amount = "$6.20";
  sample_high_price = "$3.85";
  states = none;
}

abbrev pub canada : Market
canada = record {
  id = "canada";
  slug = "canada";
  name = "Canada";
  flag = "🇨🇦";
  language = LanguageCode.en;
  locale = "en-CA";
  currency = "CAD";
  currency_symbol = "C$";
  distance_unit = kilometres;
  volume_unit = litres;
  fuel_word = "gas";
  data_source = "Natural Resources Canada (NRCan)";
  station_count = "~12,000";
  postal_placeholder = "M5V 3A8";
  postal_pattern = "^[ABCEGHJ-NPRSTVXY]\\d[ABCEGHJ-NPRSTV-Z][ -]?\\d[ABCEGHJ-NPRSTV-Z]\\d$";
  sample_refund_amount = "C$7.40";
  sample_high_price = "C$1.75";
  states = none;
}

abbrev pub uk : Market
uk = record {
  id = "uk";
  slug = "uk";
  name = "United Kingdom";
  flag = "🇬🇧";
  language = LanguageCode.en;
  locale = "en-GB";
  currency = "GBP";
  currency_symbol = "£";
  distance_unit = miles;
  volume_unit = litres;
  fuel_word = "petrol";
  data_source = "GOV.UK Fuel Finder Scheme Portal";
  station_count = "~8,300";
  postal_placeholder = "SW1A 1AA";
  postal_pattern = "^[A-Za-z]{1,2}\\d[A-Za-z\\d]?\\s?\\d[A-Za-z]{2}$";
  sample_refund_amount = "£5.20";
  sample_high_price = "£1.65";
  states = none;
}

abbrev pub france : Market
france = record {
  id = "france";
  slug = "france";
  name = "France";
  flag = "🇫🇷";
  language = LanguageCode.fr;
  locale = "fr-FR";
  currency = "EUR";
  currency_symbol = "€";
  distance_unit = kilometres;
  volume_unit = litres;
  fuel_word = "essence";
  data_source = "Ministère de l'Économie (data.gouv.fr)";
  station_count = "~11,000";
  postal_placeholder = "75001";
  postal_pattern = "^\\d{5}$";
  sample_refund_amount = "5,80\u{a0}€";
  sample_high_price = "1,85\u{a0}€";
  states = none;
}

abbrev pub germany : Market
germany = record {
  id = "germany";
  slug = "germany";
  name = "Germany";
  flag = "🇩🇪";
  language = LanguageCode.de;
  locale = "de-DE";
  currency = "EUR";
  currency_symbol = "€";
  distance_unit = kilometres;
  volume_unit = litres;
  fuel_word = "Sprit";
  data_source = "Bundeskartellamt (MTS-K Unit)";
  station_count = "~14,500";
  postal_placeholder = "10115";
  postal_pattern = "^\\d{5}$";
  sample_refund_amount = "6,10 €";
  sample_high_price = "1,90 €";
  states = none;
}

abbrev pub spain : Market
spain = record {
  id = "spain";
  slug = "spain";
  name = "Spain";
  flag = "🇪🇸";
  language = LanguageCode.es;
  locale = "es-ES";
  currency = "EUR";
  currency_symbol = "€";
  distance_unit = kilometres;
  volume_unit = litres;
  fuel_word = "gasolina";
  data_source = "Ministerio para la Transición Ecológica (Geoportal)";
  station_count = "~11,500";
  postal_placeholder = "28001";
  postal_pattern = "^\\d{5}$";
  sample_refund_amount = "5,40 €";
  sample_high_price = "1,70 €";
  states = none;
}

abbrev pub italy : Market
italy = record {
  id = "italy";
  slug = "italy";
  name = "Italy";
  flag = "🇮🇹";
  language = LanguageCode.it;
  locale = "it-IT";
  currency = "EUR";
  currency_symbol = "€";
  distance_unit = kilometres;
  volume_unit = litres;
  fuel_word = "benzina";
  data_source = "Osservaprezzi Carburanti (MIMIT)";
  station_count = "~22,000";
  postal_placeholder = "00100";
  postal_pattern = "^\\d{5}$";
  sample_refund_amount = "6,50 €";
  sample_high_price = "1,95 €";
  states = none;
}

abbrev pub austria : Market
austria = record {
  id = "austria";
  slug = "austria";
  name = "Austria";
  flag = "🇦🇹";
  language = LanguageCode.de;
  locale = "de-AT";
  currency = "EUR";
  currency_symbol = "€";
  distance_unit = kilometres;
  volume_unit = litres;
  fuel_word = "Sprit";
  data_source = "E-Control Spritpreisrechner API";
  station_count = "~2,700";
  postal_placeholder = "1010";
  postal_pattern = "^\\d{4}$";
  sample_refund_amount = "5,90 €";
  sample_high_price = "1,85 €";
  states = none;
}

abbrev pub australia : Market
australia = record {
  id = "australia";
  slug = "australia";
  name = "Australia";
  flag = "🇦🇺";
  language = LanguageCode.en;
  locale = "en-AU";
  currency = "AUD";
  currency_symbol = "A$";
  distance_unit = kilometres;
  volume_unit = litres;
  fuel_word = "petrol";
  data_source = "State government open data (see states)";
  station_count = "~5,000";
  postal_placeholder = "2000";
  postal_pattern = "^\\d{4}$";
  sample_refund_amount = "A$7.10";
  sample_high_price = "A$2.10";
  states = some (
      record {
        id = "nsw";
        name = "New South Wales";
        data_source = "NSW Government FuelCheck Developer Portal";
        station_count = "~2,500";
      }
      ∷ record {
        id = "qld";
        name = "Queensland";
        data_source = "Queensland Department of Transport Open Data";
        station_count = "~1,500";
      }
      ∷ record {
        id = "wa";
        name = "Western Australia";
        data_source = "WA Consumer Protection (FuelWatch API)";
        station_count = "~1,000";
      }
      ∷ []);
}

abbrev pub markets : Dict String Market
markets =
    ("usa", usa)
    ∷ ("canada", canada)
    ∷ ("uk", uk)
    ∷ ("france", france)
    ∷ ("germany", germany)
    ∷ ("spain", spain)
    ∷ ("italy", italy)
    ∷ ("austria", austria)
    ∷ ("australia", australia)
    ∷ []
