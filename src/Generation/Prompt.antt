-- ===== src/Generation/Prompt.antt =====
-- The prompt of one card (internal/generation/prompt.go, prompt_input.go, prompt_cards.go).
use kartochki_online_backend.Prelude.{
  Bool, false, ◌||◌, String, Option, none, some, List, [], ◌∷◌, ◌++◌, ltb, str_eq, if◌then◌else◌,
  length, take,
}
use kartochki_online_backend.Prelude.Text.{trim_space, append, concat_all, contains}
use kartochki_online_backend.Environment.{Environment}
use kartochki_online_backend.Generation.Types.{ProductCharacteristic, ProductContext}
use kartochki_online_backend.Generation.Validation.{is_empty}

pub record PromptInput : Type 0 where
  pub marketplace_id : String
  pub style_id : String
  pub card_type_id : String
  pub product : Option ProductContext

abbrev name_of : Option ProductContext → String
name_of none = "товар с входного изображения"
name_of (some p) = if is_empty p.name then "товар с входного изображения" else p.name

unfoldable base_prompt : Option ProductContext → List String
base_prompt product =
    "Создай премиальную карточку товара для маркетплейса уровня топ-брендов Wildberries / Ozon.\n"
    ∷ "Товар: "
    ∷ name_of product
    ∷ ".\n"
    ∷ "Используй входящее изображение как главный источник правды: сохрани тот же товар, форму, цвет, пропорции, фактуру и видимые детали.\n"
    ∷ "Не заменяй товар на другой и не придумывай новую одежду.\n\n"
    ∷ "СТИЛЬ: дорогой e-commerce, минимализм, clean UI, как premium бренд.\n"
    ∷ "Это должна быть именно дизайнерская карточка товара, а не фотосессия и не обычное объявление.\n\n"
    ∷ "КОМПОЗИЦИЯ:\n"
    ∷ "- товар крупно, занимает около 70% изображения;\n"
    ∷ "- без модели, либо модель строго вторична и не перетягивает внимание;\n"
    ∷ "- фон: мягкий градиент, например бежевый, серый или тёмный с глубиной;\n"
    ∷ "- справа или слева аккуратные UI-блоки с преимуществами;\n"
    ∷ "- 2-3 маленьких inset-блока с деталями товара, если они уместны.\n\n"
    ∷ "ВИЗУАЛ:\n"
    ∷ "- мягкий студийный свет;\n"
    ∷ "- аккуратные тени;\n"
    ∷ "- высокая детализация ткани и материалов;\n"
    ∷ "- чистый фон;\n"
    ∷ "- современный UI-дизайн.\n\n"
    ∷ "ТИПОГРАФИКА:\n"
    ∷ "- современный sans-serif;\n"
    ∷ "- крупный заголовок;\n"
    ∷ "- минимализм;\n"
    ∷ "- весь текст на русском языке.\n"
    ∷ []

abbrev benefit_line : String → String
benefit_line b = append "- " (append b "\n")

abbrev characteristic_line : ProductCharacteristic → String
characteristic_line c = append "- " (append c.name (append ": " (append c.value "\n")))

abbrev benefit_lines : List String → List String
benefit_lines [] = []
benefit_lines (b ∷ bs) = benefit_line b ∷ benefit_lines bs

abbrev characteristic_lines : List ProductCharacteristic → List String
characteristic_lines [] = []
characteristic_lines (c ∷ cs) = characteristic_line c ∷ characteristic_lines cs

abbrev prompt_line : String → String → List String
prompt_line label value =
    if is_empty (trim_space value) then [] else append label (append ": " (append value "\n")) ∷ []

-- The lines under a heading, if there are any.
abbrev under : String → List String → List String
under heading [] = []
under heading (x ∷ xs) = heading ∷ x ∷ xs

unfoldable product_block : Option ProductContext → List String
product_block none =
    "\nДАННЫЕ О ТОВАРЕ:\n" ∷ "- конкретные свойства товара не переданы;\n"
    ∷ "- не добавляй бренд, состав, размеры, проценты и преимущества, которых нет на входном изображении или в prompt.\n"
    ∷ []
product_block (some p) =
    "\nДАННЫЕ О ТОВАРЕ:\n" ∷ prompt_line "Название" p.name
    ++ prompt_line "Категория" p.category
    ++ prompt_line "Бренд" p.brand
    ++ prompt_line "Описание" p.description
    ++ under "Преимущества, которые можно использовать короткими UI-блоками:\n"
        (benefit_lines (take 4 p.benefits))
    ++ under "Характеристики, которые можно использовать только если они подходят типу карточки:\n"
        (characteristic_lines (take 8 p.characteristics))

unfoldable marketplace_block : String → List String
marketplace_block id =
    "\nМАРКЕТПЛЕЙС:\n"
    ∷ (if str_eq id "wildberries"
        then ("- Wildberries;\n" ∷ "- вертикальная карточка 3:4;\n"
            ∷ "- текст должен читаться на мобильном экране.\n" ∷ [])
        else if str_eq id "ozon"
        then ("- Ozon;\n" ∷ "- вертикальная карточка 3:4;\n"
            ∷ "- больше воздуха, чистые блоки, аккуратная сетка.\n" ∷ [])
        else if str_eq id "yandex_market"
        then ("- Яндекс Маркет;\n" ∷ "- квадратная карточка 1:1;\n"
            ∷ "- спокойная композиция без перегруза.\n" ∷ [])
        else ("- универсальная карточка маркетплейса;\n"
            ∷ "- чистая композиция с понятной иерархией.\n" ∷ []))

unfoldable style_block : String → List String
style_block id =
    "\nВЫБРАННЫЙ СТИЛЬ:\n"
    ∷ (if str_eq id "clean_catalog"
        then ("- чистый каталог: светлый фон, минимум элементов, много воздуха;\n"
            ∷ "- текст использовать только там, где он помогает понять товар.\n" ∷ [])
        else if str_eq id "accent_offer"
        then ("- акцент на выгоде: более яркие UI-блоки, динамичная композиция, высокий контраст;\n"
            ∷ "- сохранить премиальный вид, без дешёвых рекламных плашек.\n" ∷ [])
        else if str_eq id "premium_brand"
        then ("- премиальный бренд: сдержанные цвета, дорогой editorial-вид, сильная типографика;\n"
            ∷ "- один крупный заголовок и минимум вторичного текста.\n" ∷ [])
        else ("- чистый профессиональный marketplace-дизайн.\n" ∷ []))

has_keyword : List String → String → Bool
has_keyword [] name = false
has_keyword (k ∷ ks) name = contains name k || has_keyword ks name

abbrev benefits_missing : List String
benefits_missing =
    "- явные преимущества не переданы, поэтому не выдумывай текстовые преимущества;\n"
    ∷ "- используй нейтральные визуальные callout-зоны без конкретных claims.\n" ∷ []

abbrev or_missing : List String → String → List String → List String
or_missing missing heading [] = missing
or_missing missing heading (x ∷ xs) = heading ∷ x ∷ xs

unfoldable benefits_instruction : Option ProductContext → List String
benefits_instruction none = benefits_missing
benefits_instruction (some p) =
    or_missing benefits_missing "- используй 3-4 очень коротких преимущества из списка:\n"
      (benefit_lines (take 4 p.benefits))

module _ (env : Environment) where
  filter_by : List String → List ProductCharacteristic → List ProductCharacteristic
  unfolding has_keyword
  filter_by keywords [] = []
  filter_by keywords (c ∷ cs) =
      if has_keyword keywords (env.to_lower (trim_space c.name))
      then c ∷ filter_by keywords cs
      else filter_by keywords cs

  unfoldable pub filter_characteristics_by_keywords :
      Option ProductContext → List String → List ProductCharacteristic
  unfolding filter_by
  filter_characteristics_by_keywords none keywords = []
  filter_characteristics_by_keywords (some p) keywords = filter_by keywords p.characteristics

  unfoldable dimensions_instruction : Option ProductContext → List String
  unfolding filter_characteristics_by_keywords
  dimensions_instruction p =
      or_missing
        ("- точные размеры не переданы, поэтому не добавляй числа;\n"
          ∷ "- можно использовать линии измерения без числовых значений.\n" ∷ [])
        "- используй только эти размерные характеристики:\n"
        (characteristic_lines (
          filter_characteristics_by_keywords p
            ("размер" ∷ "длина" ∷ "ширина" ∷ "высота" ∷ "глубина" ∷ "диаметр" ∷ "обхват" ∷ [])))

  unfoldable composition_instruction : Option ProductContext → List String
  unfolding filter_characteristics_by_keywords
  composition_instruction p =
      or_missing
        ("- состав и материалы не переданы, поэтому не добавляй проценты и названия тканей;\n"
          ∷ "- можно показать фактуру товара визуально без текстовых утверждений.\n" ∷ [])
        "- используй только эти факты о составе или материале:\n"
        (characteristic_lines
          (take 3 (filter_characteristics_by_keywords p ("состав" ∷ "материал" ∷ "ткань" ∷ []))))

  unfoldable card_type_block : String → Option ProductContext → List String
  unfolding benefits_instruction dimensions_instruction composition_instruction
  card_type_block id p =
      "\nТИП КАРТОЧКИ:\n"
      ∷ (if str_eq id "main"
          then ("- главная обложка;\n" ∷ "- короткий заголовок 1-2 слова крупно;\n"
              ∷ "- 2-3 коротких преимущества только из переданных данных.\n" ∷ [])
          else if str_eq id "infographic" || str_eq id "advantages"
          then ("- карточка преимуществ;\n" ∷ benefits_instruction p)
          else if str_eq id "details"
          then ("- карточка деталей товара;\n"
              ∷ "- покажи крупные фрагменты товара, ткань, швы, фактуру и аккуратные callout-блоки;\n"
              ∷ "- подписи брать только из характеристик товара.\n" ∷ [])
          else if str_eq id "usage"
          then ("- карточка сценария использования;\n"
              ∷ "- покажи товар в реалистичном, но чистом контексте;\n"
              ∷ "- товар должен оставаться главным объектом и быть узнаваемым.\n" ∷ [])
          else if str_eq id "sizes"
          then ("- карточка размеров;\n" ∷ dimensions_instruction p)
          else if str_eq id "composition"
          then ("- карточка состава или материала;\n" ∷ composition_instruction p)
          else if str_eq id "use-case"
          then ("- карточка сценария использования;\n"
              ∷ "- покажи товар в конкретной, узнаваемой ситуации применения;\n"
              ∷ "- добавь короткий русский заголовок с описанием ситуации.\n" ∷ [])
          else if str_eq id "packaging"
          then ("- карточка упаковки;\n" ∷ "- покажи упаковку как аргумент в пользу покупки;\n"
              ∷ "- подписи только из предоставленных данных об упаковке.\n" ∷ [])
          else if str_eq id "comparison"
          then ("- карточка сравнения;\n"
              ∷ "- визуальный контраст «мы vs альтернатива» без упоминания конкурентов;\n"
              ∷ "- преимущества только из переданных данных.\n" ∷ [])
          else ("- универсальная премиальная карточка товара.\n" ∷ []))

  abbrev benefits_rule : Option ProductContext → List String
  benefits_rule none = []
  benefits_rule (some p) =
      if ltb 0 (length p.benefits)
      then "- преимущества можно брать только из блока данных о товаре.\n" ∷ []
      else []

  unfoldable safety_block : Option ProductContext → List String
  safety_block p =
      "\nЗАПРЕТЫ И КАЧЕСТВО:\n"
      ∷ "- никаких длинных предложений;\n"
      ∷ "- никакой перегруженности;\n"
      ∷ "- никакого маркетингового мусора;\n"
      ∷ "- никаких случайных элементов;\n"
      ∷ "- без дешёвого рекламного стиля;\n"
      ∷ "- без кривого или нечитаемого текста;\n"
      ∷ "- текст не должен закрывать товар;\n"
      ∷ "- не добавляй фейковые скидки, рейтинги, сертификаты, бейджи и официальные отметки маркетплейса;\n"
      ∷ "- не придумывай свойства товара, состав, размеры, бренд и цифры.\n"
      ∷ (benefits_rule p
          ++ ("\nЦЕЛЬ: карточка должна выглядеть как дорогая карточка бренда с высоким CTR, а не как обычное объявление. Сделай визуал как у премиальных карточек одежды 2025-2026, с акцентом на стиль, свет и композицию."
              ∷ []))

  unfoldable pub build_prompt : PromptInput → String
  unfolding concat_all base_prompt product_block marketplace_block style_block card_type_block
      safety_block
  build_prompt input = concat_all (
      base_prompt input.product
      ++ product_block input.product
      ++ marketplace_block input.marketplace_id
      ++ style_block input.style_id
      ++ card_type_block input.card_type_id input.product
      ++ safety_block input.product)
