-- ===== src/I18n/Locales/Hi/Operations.antt =====
-- The texts of frontend/src/lib/i18n/locales/hi.ts: `pages.runtime`, `pages.tools`,
-- `pages.audit`, `pages.health`, `pages.settings`, `pages.notFound`, `pages.privacy`.
use agent_os_test.Prelude.{[], ◌∷◌}
use agent_os_test.I18n.Catalogue.{Entries, end}
use agent_os_test.I18n.Notation.{texts}

abbrev pub runtime : Entries
runtime =
    texts
      (("title", "रनटाइम")
        ∷ (
          "description",
          "प्रदाता-समर्थित वर्कफ़्लो चलाएँ — पुनःप्रयास, idempotency और कोरिलेशन ट्रैकिंग के साथ।",
        )
        ∷ ("lookupPlaceholder", "निष्पादन ID चिपकाएँ")
        ∷ ("emptyTitle", "अभी तक कोई निष्पादन आरंभ नहीं हुआ")
        ∷ [])
      end

abbrev pub tools : Entries
tools =
    texts
      (("title", "टूल")
        ∷ (
          "description",
          "टूल रजिस्ट्री देखें, write/high-risk टूल के लिए विश्वसनीय (एकल-उपयोग) स्वीकृति जारी करें, और उन्हें सुरक्षित रूप से चलाएँ।",
        )
        ∷ ("emptyTitle", "कोई टूल पंजीकृत नहीं")
        ∷ ("approvalPlaceholder", "write/high-risk टूल के लिए आवश्यक")
        ∷ ("executing", "चल रहा है…")
        ∷ [])
      end

abbrev pub audit : Entries
audit =
    texts
      (("title", "ऑडिट लॉग")
        ∷ ("description", "हर टूल निष्पादन और स्वीकृति जाँच, सबसे नया पहले।")
        ∷ ("filterPlaceholder", "टूल से फ़िल्टर करें…")
        ∷ ("tableView", "तालिका दृश्य")
        ∷ ("timelineView", "टाइमलाइन दृश्य")
        ∷ ("emptyTitle", "कोई मेल खाती ऑडिट घटना नहीं")
        ∷ ("auditEvent", "ऑडिट घटना")
        ∷ ("copyCorrelationId", "कोरिलेशन ID कॉपी करें")
        ∷ [])
      end

abbrev pub health : Entries
health =
    texts
      (("title", "सिस्टम स्वास्थ्य")
        ∷ ("description", "बैकएंड के /health और /ready एंडपॉइंट से सीधा लाइव स्टेटस।")
        ∷ ("status", "स्थिति")
        ∷ ("service", "सेवा")
        ∷ ("environment", "एनवायरनमेंट")
        ∷ ("llmProvider", "LLM प्रदाता")
        ∷ ("storage", "स्टोरेज")
        ∷ ("overall", "समग्र")
        ∷ [])
      end

abbrev pub settings : Entries
settings =
    texts
      (("title", "सेटिंग्स")
        ∷ (
          "description",
          "स्थानीय, केवल-फ़्रंटएंड कॉन्फ़िगरेशन। यहाँ से कुछ भी कहीं नहीं भेजा जाता, सिवाय उस THYNACT API के जिससे आप जुड़ते हैं।",
        )
        ∷ ("apiKeyPlaceholder", "अपनी THYNACT API कुंजी दर्ज करें")
        ∷ ("apiConnection", "API कनेक्शन")
        ∷ (
          "apiKeyNote",
          "API कुंजी sessionStorage में रखी जाती है — यह टैब बंद होते ही स्वतः हट जाती है और कभी डिस्क या लॉग में नहीं लिखी जाती। प्रोडक्शन में सर्वर-साइड ऑर्केस्ट्रेशन प्रॉक्सी को प्राथमिकता दें; यह फ़ॉर्म स्थानीय विकास और विश्वसनीय ऑपरेटर सत्रों के लिए है।",
        )
        ∷ ("apiBaseUrl", "API बेस URL")
        ∷ ("apiKeyLabel", "API कुंजी (X-API-Key)")
        ∷ ("clear", "साफ़ करें")
        ∷ [])
      end

abbrev pub not_found : Entries
not_found =
    texts
      (("title", "पेज नहीं मिला")
        ∷ ("description", "यह स्क्रीन मौजूद नहीं है, या इसे हटा दिया गया है।")
        ∷ [])
      end

abbrev pub privacy : Entries
privacy =
    texts
      (("title", "गोपनीयता और नीति")
        ∷ (
          "description",
          "THYNACT क्या संग्रहीत करता है, वह कहाँ जाता है, और सिस्टम स्वयं किन नियमों का पालन करता है।",
        )
        ∷ ("lastUpdated", "अंतिम अद्यतन {date}")
        ∷ [])
      end
