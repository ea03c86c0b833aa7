-- ===== src/Convert/Tables.antt =====
-- The enum tables that gen/invora/billing/common/v2 and gen/invora/billing/webhooks/v2 declare, as
-- the `_value` maps of the generated code list them.
use invora_controller.Prelude.{ℕ, String, List, [], ◌∷◌}

abbrev pub charge_model_value : List (String × ℕ)
charge_model_value =
    ("CHARGE_MODEL_UNSPECIFIED", 0)
    ∷ ("CHARGE_MODEL_CUSTOM", 1)
    ∷ ("CHARGE_MODEL_DYNAMIC", 2)
    ∷ ("CHARGE_MODEL_GRADUATED", 3)
    ∷ ("CHARGE_MODEL_GRADUATED_PERCENTAGE", 4)
    ∷ ("CHARGE_MODEL_PACKAGE", 5)
    ∷ ("CHARGE_MODEL_PERCENTAGE", 6)
    ∷ ("CHARGE_MODEL_STANDARD", 7)
    ∷ ("CHARGE_MODEL_VOLUME", 8)
    ∷ []

abbrev pub plan_interval_value : List (String × ℕ)
plan_interval_value =
    ("PLAN_INTERVAL_UNSPECIFIED", 0)
    ∷ ("PLAN_INTERVAL_MONTHLY", 1)
    ∷ ("PLAN_INTERVAL_QUARTERLY", 2)
    ∷ ("PLAN_INTERVAL_SEMIANNUAL", 3)
    ∷ ("PLAN_INTERVAL_WEEKLY", 4)
    ∷ ("PLAN_INTERVAL_YEARLY", 5)
    ∷ []

abbrev pub aggregation_type_value : List (String × ℕ)
aggregation_type_value =
    ("AGGREGATION_TYPE_UNSPECIFIED", 0)
    ∷ ("AGGREGATION_TYPE_COUNT_AGG", 1)
    ∷ ("AGGREGATION_TYPE_CUSTOM_AGG", 2)
    ∷ ("AGGREGATION_TYPE_LATEST_AGG", 3)
    ∷ ("AGGREGATION_TYPE_MAX_AGG", 4)
    ∷ ("AGGREGATION_TYPE_SUM_AGG", 5)
    ∷ ("AGGREGATION_TYPE_UNIQUE_COUNT_AGG", 6)
    ∷ ("AGGREGATION_TYPE_WEIGHTED_SUM_AGG", 7)
    ∷ []

abbrev pub billing_time_value : List (String × ℕ)
billing_time_value =
    ("BILLING_TIME_UNSPECIFIED", 0)
    ∷ ("BILLING_TIME_ANNIVERSARY", 1)
    ∷ ("BILLING_TIME_CALENDAR", 2)
    ∷ []

abbrev pub coupon_type_value : List (String × ℕ)
coupon_type_value =
    ("COUPON_TYPE_UNSPECIFIED", 0)
    ∷ ("COUPON_TYPE_FIXED_AMOUNT", 1)
    ∷ ("COUPON_TYPE_PERCENTAGE", 2)
    ∷ []

abbrev pub coupon_expiration_value : List (String × ℕ)
coupon_expiration_value =
    ("COUPON_EXPIRATION_UNSPECIFIED", 0)
    ∷ ("COUPON_EXPIRATION_NO_EXPIRATION", 1)
    ∷ ("COUPON_EXPIRATION_TIME_LIMIT", 2)
    ∷ []

abbrev pub coupon_frequency_value : List (String × ℕ)
coupon_frequency_value =
    ("COUPON_FREQUENCY_UNSPECIFIED", 0)
    ∷ ("COUPON_FREQUENCY_FOREVER", 1)
    ∷ ("COUPON_FREQUENCY_ONCE", 2)
    ∷ ("COUPON_FREQUENCY_RECURRING", 3)
    ∷ []

abbrev pub weighted_interval_value : List (String × ℕ)
weighted_interval_value =
    ("WEIGHTED_INTERVAL_UNSPECIFIED", 0) ∷ ("WEIGHTED_INTERVAL_SECONDS", 1) ∷ []

abbrev pub signature_algo_value : List (String × ℕ)
signature_algo_value =
    ("WEBHOOK_ENDPOINT_SIGNATURE_ALGO_UNSPECIFIED", 0)
    ∷ ("WEBHOOK_ENDPOINT_SIGNATURE_ALGO_HMAC", 1)
    ∷ ("WEBHOOK_ENDPOINT_SIGNATURE_ALGO_JWT", 2)
    ∷ []

abbrev pub currency_enum_value : List (String × ℕ)
currency_enum_value =
    ("CURRENCY_ENUM_UNSPECIFIED", 0)
    ∷ ("CURRENCY_ENUM_AED", 1)
    ∷ ("CURRENCY_ENUM_AFN", 2)
    ∷ ("CURRENCY_ENUM_ALL", 3)
    ∷ ("CURRENCY_ENUM_AMD", 4)
    ∷ ("CURRENCY_ENUM_ANG", 5)
    ∷ ("CURRENCY_ENUM_AOA", 6)
    ∷ ("CURRENCY_ENUM_ARS", 7)
    ∷ ("CURRENCY_ENUM_AUD", 8)
    ∷ ("CURRENCY_ENUM_AWG", 9)
    ∷ ("CURRENCY_ENUM_AZN", 10)
    ∷ ("CURRENCY_ENUM_BAM", 11)
    ∷ ("CURRENCY_ENUM_BBD", 12)
    ∷ ("CURRENCY_ENUM_BDT", 13)
    ∷ ("CURRENCY_ENUM_BGN", 14)
    ∷ ("CURRENCY_ENUM_BHD", 15)
    ∷ ("CURRENCY_ENUM_BIF", 16)
    ∷ ("CURRENCY_ENUM_BMD", 17)
    ∷ ("CURRENCY_ENUM_BND", 18)
    ∷ ("CURRENCY_ENUM_BOB", 19)
    ∷ ("CURRENCY_ENUM_BRL", 20)
    ∷ ("CURRENCY_ENUM_BSD", 21)
    ∷ ("CURRENCY_ENUM_BWP", 22)
    ∷ ("CURRENCY_ENUM_BYN", 23)
    ∷ ("CURRENCY_ENUM_BZD", 24)
    ∷ ("CURRENCY_ENUM_CAD", 25)
    ∷ ("CURRENCY_ENUM_CDF", 26)
    ∷ ("CURRENCY_ENUM_CHF", 27)
    ∷ ("CURRENCY_ENUM_CLF", 28)
    ∷ ("CURRENCY_ENUM_CLP", 29)
    ∷ ("CURRENCY_ENUM_CNY", 30)
    ∷ ("CURRENCY_ENUM_COP", 31)
    ∷ ("CURRENCY_ENUM_CRC", 32)
    ∷ ("CURRENCY_ENUM_CVE", 33)
    ∷ ("CURRENCY_ENUM_CZK", 34)
    ∷ ("CURRENCY_ENUM_DJF", 35)
    ∷ ("CURRENCY_ENUM_DKK", 36)
    ∷ ("CURRENCY_ENUM_DOP", 37)
    ∷ ("CURRENCY_ENUM_DZD", 38)
    ∷ ("CURRENCY_ENUM_EGP", 39)
    ∷ ("CURRENCY_ENUM_ETB", 40)
    ∷ ("CURRENCY_ENUM_EUR", 41)
    ∷ ("CURRENCY_ENUM_FJD", 42)
    ∷ ("CURRENCY_ENUM_FKP", 43)
    ∷ ("CURRENCY_ENUM_GBP", 44)
    ∷ ("CURRENCY_ENUM_GEL", 45)
    ∷ ("CURRENCY_ENUM_GHS", 46)
    ∷ ("CURRENCY_ENUM_GIP", 47)
    ∷ ("CURRENCY_ENUM_GMD", 48)
    ∷ ("CURRENCY_ENUM_GNF", 49)
    ∷ ("CURRENCY_ENUM_GTQ", 50)
    ∷ ("CURRENCY_ENUM_GYD", 51)
    ∷ ("CURRENCY_ENUM_HKD", 52)
    ∷ ("CURRENCY_ENUM_HNL", 53)
    ∷ ("CURRENCY_ENUM_HRK", 54)
    ∷ ("CURRENCY_ENUM_HTG", 55)
    ∷ ("CURRENCY_ENUM_HUF", 56)
    ∷ ("CURRENCY_ENUM_IDR", 57)
    ∷ ("CURRENCY_ENUM_ILS", 58)
    ∷ ("CURRENCY_ENUM_INR", 59)
    ∷ ("CURRENCY_ENUM_IRR", 60)
    ∷ ("CURRENCY_ENUM_ISK", 61)
    ∷ ("CURRENCY_ENUM_JMD", 62)
    ∷ ("CURRENCY_ENUM_JOD", 63)
    ∷ ("CURRENCY_ENUM_JPY", 64)
    ∷ ("CURRENCY_ENUM_KES", 65)
    ∷ ("CURRENCY_ENUM_KGS", 66)
    ∷ ("CURRENCY_ENUM_KHR", 67)
    ∷ ("CURRENCY_ENUM_KMF", 68)
    ∷ ("CURRENCY_ENUM_KRW", 69)
    ∷ ("CURRENCY_ENUM_KWD", 70)
    ∷ ("CURRENCY_ENUM_KYD", 71)
    ∷ ("CURRENCY_ENUM_KZT", 72)
    ∷ ("CURRENCY_ENUM_LAK", 73)
    ∷ ("CURRENCY_ENUM_LBP", 74)
    ∷ ("CURRENCY_ENUM_LKR", 75)
    ∷ ("CURRENCY_ENUM_LRD", 76)
    ∷ ("CURRENCY_ENUM_LSL", 77)
    ∷ ("CURRENCY_ENUM_MAD", 78)
    ∷ ("CURRENCY_ENUM_MDL", 79)
    ∷ ("CURRENCY_ENUM_MGA", 80)
    ∷ ("CURRENCY_ENUM_MKD", 81)
    ∷ ("CURRENCY_ENUM_MMK", 82)
    ∷ ("CURRENCY_ENUM_MNT", 83)
    ∷ ("CURRENCY_ENUM_MOP", 84)
    ∷ ("CURRENCY_ENUM_MRO", 85)
    ∷ ("CURRENCY_ENUM_MUR", 86)
    ∷ ("CURRENCY_ENUM_MVR", 87)
    ∷ ("CURRENCY_ENUM_MWK", 88)
    ∷ ("CURRENCY_ENUM_MXN", 89)
    ∷ ("CURRENCY_ENUM_MYR", 90)
    ∷ ("CURRENCY_ENUM_MZN", 91)
    ∷ ("CURRENCY_ENUM_NAD", 92)
    ∷ ("CURRENCY_ENUM_NGN", 93)
    ∷ ("CURRENCY_ENUM_NIO", 94)
    ∷ ("CURRENCY_ENUM_NOK", 95)
    ∷ ("CURRENCY_ENUM_NPR", 96)
    ∷ ("CURRENCY_ENUM_NZD", 97)
    ∷ ("CURRENCY_ENUM_PAB", 98)
    ∷ ("CURRENCY_ENUM_PEN", 99)
    ∷ ("CURRENCY_ENUM_PGK", 100)
    ∷ ("CURRENCY_ENUM_PHP", 101)
    ∷ ("CURRENCY_ENUM_PKR", 102)
    ∷ ("CURRENCY_ENUM_PLN", 103)
    ∷ ("CURRENCY_ENUM_PYG", 104)
    ∷ ("CURRENCY_ENUM_QAR", 105)
    ∷ ("CURRENCY_ENUM_RON", 106)
    ∷ ("CURRENCY_ENUM_RSD", 107)
    ∷ ("CURRENCY_ENUM_RUB", 108)
    ∷ ("CURRENCY_ENUM_RWF", 109)
    ∷ ("CURRENCY_ENUM_SAR", 110)
    ∷ ("CURRENCY_ENUM_SBD", 111)
    ∷ ("CURRENCY_ENUM_SCR", 112)
    ∷ ("CURRENCY_ENUM_SEK", 113)
    ∷ ("CURRENCY_ENUM_SGD", 114)
    ∷ ("CURRENCY_ENUM_SHP", 115)
    ∷ ("CURRENCY_ENUM_SLL", 116)
    ∷ ("CURRENCY_ENUM_SOS", 117)
    ∷ ("CURRENCY_ENUM_SRD", 118)
    ∷ ("CURRENCY_ENUM_STD", 119)
    ∷ ("CURRENCY_ENUM_SZL", 120)
    ∷ ("CURRENCY_ENUM_THB", 121)
    ∷ ("CURRENCY_ENUM_TJS", 122)
    ∷ ("CURRENCY_ENUM_TOP", 123)
    ∷ ("CURRENCY_ENUM_TRY", 124)
    ∷ ("CURRENCY_ENUM_TTD", 125)
    ∷ ("CURRENCY_ENUM_TWD", 126)
    ∷ ("CURRENCY_ENUM_TZS", 127)
    ∷ ("CURRENCY_ENUM_UAH", 128)
    ∷ ("CURRENCY_ENUM_UGX", 129)
    ∷ ("CURRENCY_ENUM_USD", 130)
    ∷ ("CURRENCY_ENUM_UYU", 131)
    ∷ ("CURRENCY_ENUM_UZS", 132)
    ∷ ("CURRENCY_ENUM_VND", 133)
    ∷ ("CURRENCY_ENUM_VUV", 134)
    ∷ ("CURRENCY_ENUM_WST", 135)
    ∷ ("CURRENCY_ENUM_XAF", 136)
    ∷ ("CURRENCY_ENUM_XCD", 137)
    ∷ ("CURRENCY_ENUM_XOF", 138)
    ∷ ("CURRENCY_ENUM_XPF", 139)
    ∷ ("CURRENCY_ENUM_YER", 140)
    ∷ ("CURRENCY_ENUM_ZAR", 141)
    ∷ ("CURRENCY_ENUM_ZMW", 142)
    ∷ []
