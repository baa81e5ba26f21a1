-- ===== src/Fx/Tests.antt =====
-- A rate from the second host, and from the cache.

use elegance_shawls.Fx.Rates.{Cache, DateField, Rate, RateField, Response, get_pkr_rate}
use elegance_shawls.Fx.Plausible.{Answers, get_pkr_rate-Answers}
use elegance_shawls.Base.{◌+◌, List, Option, [], refl, some, true, ℕ, ◌∷◌, ◌≡◌}

abbrev euro : List Response
euro =
    Response.failed
    ∷ Response.response 200 90
        (record { rate = RateField.number 300500000; date = DateField.date_text "2026-01-02" })
    ∷ []

abbrev asked : ℕ → Cache → Cache × Option Rate
asked now cache =
    get_pkr_rate (λ t. true) (λ t. t) (λ t. true) "2026-01-03" euro now (now + 1) "eur" cache

abbrev euro_rate : Rate
euro_rate = record { code = "eur"; rate = 300500000; date = "2026-01-02" }

from_second_host :
    asked 10 [] ≡ (record { code = "eur"; at = 11; rate = euro_rate } ∷ [], some euro_rate)
unfolding get_pkr_rate
from_second_host = refl

get_pkr_rate-Answers_example : Answers "eur" (asked 10 [])
get_pkr_rate-Answers_example =
    get_pkr_rate-Answers (λ t. true) (λ t. true) (λ t. t) "2026-01-03" euro 10 11 "eur" [] tt
