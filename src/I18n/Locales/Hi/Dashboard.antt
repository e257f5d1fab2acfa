-- ===== src/I18n/Locales/Hi/Dashboard.antt =====
-- The texts of frontend/src/lib/i18n/locales/hi.ts: `dashboard`, `status`, `badges`.
use agent_os_test.Prelude.{[], ◌∷◌}
use agent_os_test.I18n.Catalogue.{Entries, end}
use agent_os_test.I18n.Notation.{texts, groups}

abbrev pub dashboard : Entries
dashboard =
    texts
      (("apiStatus", "API स्थिति")
        ∷ ("online", "ऑनलाइन")
        ∷ ("offline", "ऑफ़लाइन")
        ∷ ("degraded", "सीमित")
        ∷ ("toolsAvailable", "उपलब्ध टूल")
        ∷ ("auditEvents", "ऑडिट घटनाएँ")
        ∷ ("thisSession", "यह सत्र")
        ∷ ("sessionHint", "यहाँ आरंभ किए गए कार्य, रन और निष्पादन")
        ∷ ("ephemeralHint", "अस्थायी स्टोरेज — पुनः आरंभ पर डेटा मिट जाता है")
        ∷ ("keyRequiredToList", "{action} के लिए ऑपरेटर कुंजी आवश्यक")
        ∷ ("notPermittedTo", "इस कुंजी को {action} की अनुमति नहीं है")
        ∷ ("actionListTools", "टूल सूचीबद्ध करने")
        ∷ ("actionReadAudit", "ऑडिट लॉग पढ़ने")
        ∷ ("recentAudit", "हालिया ऑडिट गतिविधि")
        ∷ ("noAuditYet", "अभी तक कोई ऑडिट घटना नहीं")
        ∷ ("auditHint", "टूल निष्पादन और स्वीकृति जाँच यहाँ दिखाई देंगी।")
        ∷ ("quickActions", "त्वरित कार्रवाइयाँ")
        ∷ ("startOrchestration", "ऑर्केस्ट्रेशन आरंभ करें")
        ∷ ("runAutonomous", "स्वायत्त उद्देश्य चलाएँ")
        ∷ ("createTask", "कार्य बनाएँ")
        ∷ ("sessionActivity", "सत्र गतिविधि")
        ∷ ("tasks", "कार्य")
        ∷ ("workflowRuns", "वर्कफ़्लो रन")
        ∷ ("runtimeExecutions", "रनटाइम निष्पादन")
        ∷ ("view", "देखें")
        ∷ ("heroLead", "आपका कंट्रोल सेंटर")
        ∷ (
          "heroBody",
          "THYNACT को एक उद्देश्य दें और यह योजना बनाता है, सत्यापित करता है और निष्पादित करता है — हर परिणामकारी चरण नीति से होकर गुजरता है और ऑडिट ट्रेल में दर्ज होता है।",
        )
        ∷ ("heroPrimary", "ऑर्केस्ट्रेशन शुरू करें")
        ∷ ("heroSecondary", "यह क्या करता है, देखें")
        ∷ ("exploreTitle", "एक्सप्लोर करें")
        ∷ [])
      (groups
        ((
          "explore",
          groups
              ((
                "overview",
                texts
                    (("title", "उत्पाद अवलोकन")
                      ∷ (
                        "body",
                        "आज जो भी क्षमता लाइव है, हर एक उसी सतह से जुड़ी है जो उसे चलाती है।",
                      )
                      ∷ [])
                    end,
              )
                ∷ (
                  "integrations",
                  texts
                      (("title", "कनेक्टर")
                        ∷ (
                          "body",
                          "कनेक्टर कैटलॉग ब्राउज़ करें और देखें कि क्या कनेक्टेड है, किसे सेटअप चाहिए, और क्या अभी बना नहीं है।",
                        )
                        ∷ [])
                      end,
                )
                ∷ (
                  "about",
                  texts
                      (("title", "THYNACT के बारे में")
                        ∷ (
                          "body",
                          "यह क्यों है, इसमें काम कैसे आगे बढ़ता है, और यह किन बातों पर टिका है।",
                        )
                        ∷ [])
                      end,
                )
                ∷ (
                  "health",
                  texts
                      (("title", "सिस्टम स्वास्थ्य")
                        ∷ ("body", "सीधे बैकएंड से लाइव स्थिति, स्टोरेज की टिकाऊपन सहित।")
                        ∷ [])
                      end,
                )
                ∷ [])
              end,
        )
          ∷ [])
        (texts (("sessionEmptyHint", "इस टैब में आप जो भी शुरू करेंगे वह यहाँ दिखेगा।") ∷ []) end))

abbrev pub status : Entries
status =
    texts
      (("LIVE_VALIDATED", "लाइव सत्यापित")
        ∷ ("CONNECTED_NOT_VALIDATED", "कनेक्टेड, सत्यापित नहीं")
        ∷ ("AUTH_REQUIRED", "प्रमाणीकरण आवश्यक")
        ∷ ("CREDENTIAL_REQUIRED", "क्रेडेंशियल आवश्यक")
        ∷ ("PROVIDER_APPROVAL_REQUIRED", "प्रदाता स्वीकृति आवश्यक")
        ∷ ("PLATFORM_CONFIG_REQUIRED", "प्लेटफ़ॉर्म कॉन्फ़िगरेशन आवश्यक")
        ∷ ("STABLE_DOMAIN_REQUIRED", "स्थिर डोमेन आवश्यक")
        ∷ ("DEGRADED", "सीमित")
        ∷ ("NOT_IMPLEMENTED", "लागू नहीं")
        ∷ ("UNAVAILABLE", "अनुपलब्ध")
        ∷ ("healthy", "स्वस्थ")
        ∷ ("running", "चल रहा है")
        ∷ ("succeeded", "सफल")
        ∷ ("failed", "विफल")
        ∷ ("pending", "लंबित")
        ∷ ("configured", "कॉन्फ़िगर किया गया")
        ∷ [])
      end

abbrev pub badges : Entries
badges =
    texts
      (("pending", "लंबित")
        ∷ ("running", "चल रहा है")
        ∷ ("completed", "पूर्ण")
        ∷ ("succeeded", "सफल")
        ∷ ("failed", "विफल")
        ∷ ("rejected", "अस्वीकृत")
        ∷ ("paused", "रुका हुआ")
        ∷ ("skipped", "छोड़ा गया")
        ∷ ("waiting_approval", "स्वीकृति प्रतीक्षित")
        ∷ ("ok", "स्वस्थ")
        ∷ ("healthy", "स्वस्थ")
        ∷ ("unconfigured", "कॉन्फ़िगर नहीं")
        ∷ ("unavailable", "अनुपलब्ध")
        ∷ ("degraded", "सीमित")
        ∷ ("connected", "कनेक्टेड")
        ∷ ("configured", "कॉन्फ़िगर किया गया")
        ∷ ("needs_setup", "सेटअप आवश्यक")
        ∷ ("available", "उपलब्ध")
        ∷ ("error", "त्रुटि")
        ∷ ("disabled", "निष्क्रिय")
        ∷ [])
      end
