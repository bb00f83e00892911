-- ===== src/Pending/Shown.antt =====
-- Whose expenses `getPendingApprovals` of server/src/controllers/approvalController.ts shows.
