-- ===== src/I18n/Locales/Hi/Shell.antt =====
-- The texts of frontend/src/lib/i18n/locales/hi.ts: `common`, `language`, `theme`, `nav`,
-- `topbar`, `states`, `errorCodes`, `counts`.
use agent_os_test.Prelude.{[], ◌∷◌}
use agent_os_test.I18n.Catalogue.{Entries, end}
use agent_os_test.I18n.Notation.{texts, groups}

abbrev pub common : Entries
common =
    texts
      (("save", "सहेजें")
        ∷ ("cancel", "रद्द करें")
        ∷ ("close", "बंद करें")
        ∷ ("delete", "हटाएँ")
        ∷ ("retry", "पुनः प्रयास करें")
        ∷ ("refresh", "रिफ़्रेश करें")
        ∷ ("viewAll", "सभी देखें")
        ∷ ("search", "खोजें")
        ∷ ("loading", "लोड हो रहा है…")
        ∷ ("signIn", "साइन इन करें")
        ∷ ("authenticate", "प्रमाणित करें")
        ∷ ("unavailable", "अनुपलब्ध")
        ∷ ("offline", "ऑफ़लाइन")
        ∷ ("noAccess", "पहुँच नहीं")
        ∷ ("yes", "हाँ")
        ∷ ("no", "नहीं")
        ∷ ("optional", "वैकल्पिक")
        ∷ ("required", "आवश्यक")
        ∷ ("copy", "कॉपी करें")
        ∷ ("copied", "कॉपी हो गया")
        ∷ ("back", "वापस")
        ∷ ("next", "आगे")
        ∷ ("done", "पूर्ण")
        ∷ ("operator", "ऑपरेटर")
        ∷ ("apiKeyConfigured", "API कुंजी कॉन्फ़िगर है")
        ∷ ("noApiKeySet", "कोई API कुंजी सेट नहीं")
        ∷ ("connections", "कनेक्शन")
        ∷ ("clearSession", "सत्र साफ़ करें")
        ∷ ("allOutcomes", "सभी परिणाम")
        ∷ ("allScopes", "सभी स्कोप")
        ∷ ("allIntegrations", "सभी इंटीग्रेशन")
        ∷ ("success", "सफल")
        ∷ ("failed", "विफल")
        ∷ ("approvalRequired", "स्वीकृति आवश्यक")
        ∷ ("selectTool", "कोई टूल चुनें…")
        ∷ ("approvedBy", "स्वीकृतकर्ता")
        ∷ ("sessionGrants", "इस सत्र के अनुदान")
        ∷ ("sessionTasks", "इस सत्र के कार्य")
        ∷ ("events", "घटनाएँ")
        ∷ ("priorityLow", "कम")
        ∷ ("priorityNormal", "सामान्य")
        ∷ ("priorityHigh", "उच्च")
        ∷ ("priorityCritical", "अत्यावश्यक")
        ∷ ("notConfigured", "कॉन्फ़िगर नहीं")
        ∷ ("saveConfiguration", "कॉन्फ़िगरेशन सहेजें")
        ∷ ("appearance", "रूप")
        ∷ ("about", "परिचय")
        ∷ ("displayName", "प्रदर्शित नाम")
        ∷ ("none", "कोई नहीं")
        ∷ ("executionStages", "निष्पादन चरण")
        ∷ ("finalAnswer", "अंतिम उत्तर")
        ∷ ("finalSynthesis", "अंतिम संश्लेषण")
        ∷ ("reviewerIssues", "समीक्षक टिप्पणियाँ")
        ∷ ("autonomousSpecialists", "स्वायत्त specialists")
        ∷ ("resumePausedSteps", "रुके हुए स्टेप फिर से शुरू करें")
        ∷ ("idempotencyKey", "Idempotency कुंजी")
        ∷ [])
      end

abbrev pub language : Entries
language =
    texts
      (("label", "भाषा")
        ∷ ("switchTo", "{language} पर स्विच करें")
        ∷ ("current", "वर्तमान भाषा: {language}")
        ∷ [])
      end

abbrev pub theme : Entries
theme =
    texts
      (("label", "थीम")
        ∷ ("change", "थीम बदलें")
        ∷ ("dark", "डार्क")
        ∷ ("light", "लाइट")
        ∷ ("system", "सिस्टम")
        ∷ [])
      end

abbrev pub nav : Entries
nav =
    groups
      ((
        "groups",
        texts
            (("overview", "अवलोकन")
              ∷ ("execution", "निष्पादन")
              ∷ ("workflows", "वर्कफ़्लो")
              ∷ ("knowledge", "ज्ञान")
              ∷ ("operations", "संचालन")
              ∷ ("system", "सिस्टम")
              ∷ [])
            end,
      )
        ∷ (
          "items",
          texts
              (("dashboard", "डैशबोर्ड")
                ∷ ("productOverview", "उत्पाद अवलोकन")
                ∷ ("tasks", "कार्य")
                ∷ ("orchestrate", "ऑर्केस्ट्रेट")
                ∷ ("autonomousRuns", "स्वायत्त रन")
                ∷ ("agents", "एजेंट")
                ∷ ("workflows", "वर्कफ़्लो")
                ∷ ("workflowRuns", "वर्कफ़्लो रन")
                ∷ ("approvals", "स्वीकृतियाँ")
                ∷ ("memory", "मेमोरी")
                ∷ ("runtime", "रनटाइम")
                ∷ ("tools", "टूल")
                ∷ ("integrations", "इंटीग्रेशन")
                ∷ ("auditLogs", "ऑडिट लॉग")
                ∷ ("health", "सिस्टम स्वास्थ्य")
                ∷ ("settings", "सेटिंग्स")
                ∷ ("privacy", "गोपनीयता और नीति")
                ∷ [])
              end,
        )
        ∷ [])
      (texts
        (("openNavigation", "नेविगेशन खोलें")
          ∷ ("expandSidebar", "साइडबार विस्तृत करें")
          ∷ ("collapseSidebar", "साइडबार संक्षिप्त करें")
          ∷ [])
        end)

abbrev pub topbar : Entries
topbar =
    texts
      (("searchPlaceholder", "खोजें या जाएँ…")
        ∷ ("apiOnline", "API ऑनलाइन")
        ∷ ("apiOffline", "API ऑफ़लाइन")
        ∷ ("connecting", "कनेक्ट हो रहा है")
        ∷ ("degraded", "सीमित")
        ∷ ("keyNeeded", "कुंजी आवश्यक")
        ∷ ("checkingApi", "API की जाँच हो रही है…")
        ∷ ("apiUnreachable", "API तक नहीं पहुँच सके। सेटिंग्स में बेस URL जाँचें।")
        ∷ ("storageEphemeral", "स्टोरेज अस्थायी है — API पुनः आरंभ होने पर डेटा मिट जाता है।")
        ∷ ("nonProduction", "गैर-प्रोडक्शन परिनियोजन ({environment})")
        ∷ [])
      end

abbrev pub states : Entries
states =
    texts
      (("loading", "लोड हो रहा है…")
        ∷ ("nothingYet", "इस सत्र में अभी कुछ नहीं।")
        ∷ ("somethingWentWrong", "कुछ गड़बड़ हो गई")
        ∷ ("unexpectedError", "अप्रत्याशित त्रुटि")
        ∷ ("timedOut", "अनुरोध का समय समाप्त हो गया")
        ∷ ("cantReachApi", "API तक नहीं पहुँच सके")
        ∷ ("networkHint", "अपना नेटवर्क या API कॉन्फ़िगरेशन जाँचें।")
        ∷ ("tried", "प्रयास किया: {url}")
        ∷ ("notFound", "नहीं मिला")
        ∷ ("authRequiredTitle", "ऑपरेटर प्रमाणीकरण आवश्यक")
        ∷ ("authRequiredBody", "प्रमाणीकरण के बाद यह दृश्य उपलब्ध होगा — {detail}")
        ∷ ("serviceUnavailableTitle", "सेवा अस्थायी रूप से अनुपलब्ध")
        ∷ ("permissionDeniedTitle", "अनुमति अस्वीकृत")
        ∷ ("correlationId", "कोरिलेशन ID: {id}")
        ∷ [])
      end

abbrev pub error_codes : Entries
error_codes =
    texts
      (("auth_not_configured", "इस परिनियोजन में कोई ऑपरेटर कुंजी कॉन्फ़िगर नहीं है।")
        ∷ ("authentication_required", "जारी रखने के लिए ऑपरेटर कुंजी से साइन इन करें।")
        ∷ ("authentication_invalid", "वह ऑपरेटर कुंजी स्वीकार नहीं की गई।")
        ∷ [])
      end

abbrev pub counts : Entries
counts =
    texts
      (("task_one", "{count} कार्य")
        ∷ ("task_other", "{count} कार्य")
        ∷ ("event_one", "{count} घटना")
        ∷ ("event_other", "{count} घटनाएँ")
        ∷ ("result_one", "{count} परिणाम")
        ∷ ("result_other", "{count} परिणाम")
        ∷ [])
      end
